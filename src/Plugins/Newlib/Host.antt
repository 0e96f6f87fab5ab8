-- ===== src/Plugins/Newlib/Host.antt =====
-- What src/mw-newlib.cpp uses of the host: the constants of its headers and its system calls.
use mw_dbg_runner.Common.{ℕ, true, false, Bytes, codes, List, [], ◌∷◌, ℤ}
use mw_dbg_runner.Debug.Act.{Act}
use mw_dbg_runner.Plugins.Newlib.Flags.{Flag, Flags}

-- The fields of `struct stat` that are passed on.
pub record Stat : Type 0 where
  pub st_dev : ℤ
  pub st_ino : ℤ
  pub st_mode : ℤ
  pub st_nlink : ℤ
  pub st_uid : ℤ
  pub st_gid : ℤ
  pub st_rdev : ℤ
  pub st_size : ℤ
  pub st_atime : ℤ
  pub st_mtime : ℤ
  pub st_ctime : ℤ

-- The calls of POSIX. `read` also gives the bytes that it wrote to the beginning of the buffer.
pub record Posix (W : Type 0) : Type 0 where
  pub close : ℤ → Act W ℤ
  pub fstat : ℤ → Act W (ℤ × Stat)
  pub isatty : ℤ → Act W ℤ
  pub link : Bytes → Bytes → Act W ℤ
  pub lseek : ℤ → ℤ → ℤ → Act W ℤ
  pub open_file : Bytes → ℤ → ℤ → Act W ℤ
  pub read : ℤ → ℤ → Act W (ℤ × List ℕ)
  pub stat : Bytes → Act W (ℤ × Stat)
  pub symlink : Bytes → Bytes → Act W ℤ
  pub unlink : Bytes → Act W ℤ
  pub write : ℤ → List ℕ → ℤ → Act W ℤ
  -- the value of a constant of `fcntl.h`, `sys/stat.h` or `unistd.h`
  pub constant : Bytes → ℤ

module _ {W : Type 0} (c : Posix W) where
  abbrev known : Bytes → Flag
  known name = record {
    name = name;
    loaded = true;
    target = c.constant name;
    host = c.constant name;
  }

  abbrev unloaded : Bytes → Flag
  unloaded name = record {
    name = name;
    loaded = false;
    target = c.constant name;
    host = c.constant name;
  }

  -- The flags of `open_flags` in the order of `load`.
  unfoldable pub open_flags : Flags
  open_flags = record {
    inited = false;
    members =
        known (codes "O_APPEND")
        ∷ known (codes "O_CREAT")
        ∷ known (codes "O_EXCL")
        ∷ known (codes "O_NOCTTY")
        ∷ known (codes "O_NONBLOCK")
        ∷ known (codes "O_SYNC")
        ∷ known (codes "O_ASYNC")
        ∷ known (codes "O_CLOEXEC")
        ∷ known (codes "O_DIRECT")
        ∷ known (codes "O_DIRECTORY")
        ∷ known (codes "O_DSYNC")
        ∷ known (codes "O_LARGEFILE")
        ∷ known (codes "O_NOATIME")
        ∷ known (codes "O_NDELAY")
        ∷ known (codes "O_PATH")
        ∷ known (codes "O_TRUNC")
        ∷ known (codes "O_RDONLY")
        ∷ known (codes "O_WRONLY")
        ∷ known (codes "O_RDWR")
        ∷ [];
  }

  -- The modes of `open_flags`. Two of them are not asked for by `load`.
  unfoldable pub open_modes : Flags
  open_modes = record {
    inited = false;
    members =
        known (codes "S_IREAD")
        ∷ known (codes "S_IWRITE")
        ∷ unloaded (codes "S_IRWXU")
        ∷ unloaded (codes "S_IRUSR")
        ∷ known (codes "S_IWUSR")
        ∷ known (codes "S_IXUSR")
        ∷ known (codes "S_IRWXG")
        ∷ known (codes "S_IRGRP")
        ∷ known (codes "S_IWGRP")
        ∷ known (codes "S_IXGRP")
        ∷ known (codes "S_IRWXO")
        ∷ known (codes "S_IROTH")
        ∷ known (codes "S_IWOTH")
        ∷ known (codes "S_IXOTH")
        ∷ known (codes "S_ISUID")
        ∷ known (codes "S_ISGID")
        ∷ known (codes "S_ISVTX")
        ∷ [];
  }

  unfoldable pub seek_flags : Flags
  seek_flags = record {
    inited = false;
    members = known (codes "SEEK_SET") ∷ known (codes "SEEK_CUR") ∷ known (codes "SEEK_END") ∷ [];
  }
