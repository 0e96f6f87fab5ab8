-- ===== src/Plugins/Newlib/Stub.antt =====
-- `mw_func_stub` (src/mw-newlib.cpp): each call of the program under test is run on the host, and its
-- result returned from the function. What is written to the log is left out.
use mw_dbg_runner.Common.{
  ℕ, ◌-◌, Bool, true, false, Bytes, codes, lit, bytes_eq, List, [], ◌∷◌, ◌++◌, replicate, length,
  ltb, if◌then◌else◌, ℤ, pos, negsuc, is_pos,
}
use mw_dbg_runner.Error.{crashed, length_error}
use mw_dbg_runner.Numbers.{decimal, hexadecimal, stoi, stoull, int_to_string}
use mw_dbg_runner.Output.Boost.{Boost}
use mw_dbg_runner.Types.Access.{to_size}
use mw_dbg_runner.Debug.Act.{Act, give, throw, from, ◌>>=◌}
use mw_dbg_runner.Debug.Frame.{at, DebugArg, FrameOps, get_cstring}
use mw_dbg_runner.Debug.BreakPoint.{BreakPoint, break_at_function}
use mw_dbg_runner.Plugins.Newlib.Flags.{Flags, load, get_flags}
use mw_dbg_runner.Plugins.Newlib.Host.{Stat, Posix, open_flags, open_modes, seek_flags}

-- The members `sf` and `of` of the break point; the flags of `of` are its flags and its modes.
pub record Stub : Type 0 where
  pub sf : Flags
  pub of_flags : Flags
  pub of_modes : Flags

unfoldable pub new_stub : {W : Type 0} → Posix W → Stub
new_stub c = record { sf = seek_flags c; of_flags = open_flags c; of_modes = open_modes c }

-- The two or three `replace_all` of `open`.
unfoldable pub host_path : Boost → Bytes → Bytes
host_path b file =
    let slashes = b.replace_all file (92 ∷ []) (codes "/") in
    let once = b.replace_all slashes (codes "//") (codes "/") in
    b.replace_all once (codes "//") (codes "/")

-- `std::vector<std::uint8_t> buf(len, 0)`, of which the call has written the beginning.
abbrev filled : ℤ → List ℕ → List ℕ
filled len bytes = bytes ++ replicate (to_size len - length bytes) 0

-- `get` and `put` are the state of the break point in that of the program, `fuel` bounds the length of
-- the texts that are read.
module _ {W : Type 0} (b : Boost) (c : Posix W) (get : W → Stub) (put : Stub → W → W) (fuel : ℕ)
    (fr : FrameOps W) where
  abbrev value_at : ℕ → Act W Bytes
  value_at n = do a ← from (at n fr.args); give a.base.value

  abbrev int_at : ℕ → Act W ℤ
  int_at n = do s ← value_at n; from (stoi decimal s)

  abbrev answer : ℤ → Act W (Unit {0})
  answer ret = fr.return_ (int_to_string ret)

  unfoldable pub close : Act W (Unit {0})
  close = do fd ← int_at 3; ret ← c.close fd; answer ret

  abbrev set_field : Bytes → ℤ → Act W (Unit {0})
  set_field name v = fr.set (codes "arg7->" ++ name) (int_to_string v)

  abbrev set_stat : Stat → Act W (Unit {0})
  set_stat st = do
    _ ← set_field (codes "st_dev") st.st_dev
    _ ← set_field (codes "st_ino") st.st_ino
    _ ← set_field (codes "st_mode") st.st_mode
    _ ← set_field (codes "st_nlink") st.st_nlink
    _ ← set_field (codes "st_uid") st.st_uid
    _ ← set_field (codes "st_gid") st.st_gid
    _ ← set_field (codes "st_rdev") st.st_rdev
    _ ← set_field (codes "st_size") st.st_size
    _ ← set_field (codes "st_atime") st.st_atime
    _ ← set_field (codes "st_mtime") st.st_mtime
    set_field (codes "st_ctime") st.st_ctime

  unfoldable pub fstat : Act W (Unit {0})
  fstat = do fd ← int_at 3; (ret, st) ← c.fstat fd; _ ← set_stat st; answer ret

  unfoldable pub isatty : Act W (Unit {0})
  isatty = do fd ← int_at 3; ret ← c.isatty fd; answer ret

  unfoldable pub link : Act W (Unit {0})
  link = do
    existing ← get_cstring fr fuel 1
    new ← get_cstring fr fuel 2
    ret ← c.link existing new
    answer ret

  abbrev state : Act W Stub
  state w = give (get w) w

  abbrev keep : Stub → Act W (Unit {0})
  keep s w = give tt (put s w)

  -- `if (!sf.inited) sf.load(fr);`
  abbrev ready_seek : Act W Flags
  ready_seek = do
    s ← state
    elim (Flags.inited s.sf) [
      | true ↦ give s.sf
      | false ↦ do loaded ← load fr s.sf; _ ← keep (record s { sf = loaded }); give loaded
    ]

  unfoldable pub lseek : Act W (Unit {0})
  lseek = do
    fd ← int_at 3
    ptr ← int_at 4
    dir_in ← int_at 5
    sf ← ready_seek
    ret ← c.lseek fd ptr (get_flags sf dir_in)
    answer ret

  -- `if (!of.inited) of.load(fr);`
  abbrev ready_open : Act W (Flags × Flags)
  ready_open = do
    s ← state
    elim (Flags.inited s.of_flags) [
      | true ↦ give (s.of_flags, s.of_modes)
      | false ↦ do
        flags ← load fr s.of_flags
        modes ← load fr s.of_modes
        _ ← keep (record s { of_flags = flags; of_modes = modes })
        give (flags, modes)
    ]

  unfoldable pub open_file : Act W (Unit {0})
  open_file = do
    file ← get_cstring fr fuel 1
    flags_in ← int_at 3
    mode_in ← int_at 4
    (flags, modes) ← ready_open
    ret ← c.open_file (host_path b file) (get_flags flags flags_in) (get_flags modes mode_in)
    answer ret

  abbrev address_at : ℕ → Act W ℕ
  address_at n = do s ← value_at n; from (stoull hexadecimal s)

  abbrev write_if : Bool → ℕ → List ℕ → Act W (Unit {0})
  write_if true ptr buf = fr.write_memory ptr buf
  write_if false ptr buf = give tt

  abbrev read_into : ℤ → ℤ → ℕ → Act W (Unit {0})
  read_into fd (negsuc n) ptr = throw length_error
  read_into fd (pos n) ptr = do
    (ret, bytes) ← c.read fd (pos n)
    _ ← write_if (is_pos (pos n)) ptr (filled (pos n) bytes)
    answer ret

  -- The whole buffer is written to the memory of the program. A negative length is too long for the
  -- buffer.
  unfoldable pub read : Act W (Unit {0})
  read = do fd ← int_at 3; len ← int_at 4; ptr ← address_at 6; read_into fd len ptr

  -- The file is the value of the argument and not its text.
  unfoldable pub stat : Act W (Unit {0})
  stat = do file ← value_at 1; (ret, st) ← c.stat file; _ ← set_stat st; answer ret

  unfoldable pub symlink : Act W (Unit {0})
  symlink = do
    existing ← get_cstring fr fuel 1
    new ← get_cstring fr fuel 2
    ret ← c.symlink existing new
    answer ret

  unfoldable pub unlink : Act W (Unit {0})
  unlink = do name ← get_cstring fr fuel 6; ret ← c.unlink name; answer ret

  -- Where fewer bytes than the length were read, the call would read behind them.
  abbrev write_from : ℤ → List ℕ → ℤ → Act W (Unit {0})
  write_from fd data_ len = elim (ltb (length data_) (to_size len)) [
    | true ↦ throw crashed
    | false ↦ do ret ← c.write fd data_ len; answer ret
  ]

  unfoldable pub write : Act W (Unit {0})
  write = do
    fd ← int_at 3
    len ← int_at 4
    ptr ← address_at 6
    data_ ← fr.read_memory ptr (to_size len)
    write_from fd data_ len

  -- The call that a name stands for; other names are ignored.
  unfoldable pub dispatch : Bytes → Act W (Unit {0})
  dispatch name =
      if bytes_eq name (lit "mw_func_close")
      then close
      else if bytes_eq name (lit "mw_func_fstat")
      then fstat
      else if bytes_eq name (lit "mw_func_isatty")
      then isatty
      else if bytes_eq name (lit "mw_func_link")
      then link
      else if bytes_eq name (lit "mw_func_lseek")
      then lseek
      else if bytes_eq name (lit "mw_func_open")
      then open_file
      else if bytes_eq name (lit "mw_func_read")
      then read
      else if bytes_eq name (lit "mw_func_stat")
      then stat
      else if bytes_eq name (lit "mw_func_symlink")
      then symlink
      else if bytes_eq name (lit "mw_func_unlink")
      then unlink
      else if bytes_eq name (lit "mw_func_write")
      then write
      else give tt

  abbrev dispatch_if : DebugArg → Act W (Unit {0})
  dispatch_if type = elim (bytes_eq type.id (lit "func_type")) [
    | true ↦ dispatch type.base.value
    | false ↦ give tt
  ]

  unfoldable pub invoke : Act W (Unit {0})
  invoke = do type ← from (at 0 fr.args); dispatch_if type

-- `mw_func_stub`
unfoldable pub func_stub :
    {W : Type 0} → Boost → Posix W → (W → Stub) → (Stub → W → W) → ℕ → BreakPoint W
func_stub b c get put fuel =
    break_at_function (λ fr file line. invoke b c get put fuel fr) (codes "mw_func_stub")
