-- ===== src/EnvCheck/Tests.antt =====
-- Runs of the program on an output that takes every write whole.
use xrootd_hdfs.Base.{pos, some, none, [], ◌++◌, Bytes, slice, ◌≡◌, refl}
use xrootd_hdfs.Env.{codes}
use xrootd_hdfs.EnvCheck.{Stdout, main}

-- The world is what was printed.
abbrev pipe : Stdout Bytes
pipe = record { write_out = λ buf cur n w e. (pos n, w ++ slice buf cur n, e) }

print_one :
    main pipe 3 [] none (some (codes "-Xmx1g")) none [] (pos 0)
    ≡ some (pos 0, codes "LIBHDFS_OPTS=-Xmx1g\0", pos 0)
unfolding main
print_one = refl
