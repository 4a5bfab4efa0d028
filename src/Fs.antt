-- ===== src/Fs.antt =====
-- pkg/core/fs/fs.go: the module `fs` of a script. `F` is float64, `number_of` and `int_of` its
-- conversions from and to int. The file system is a parameter: what os and the `open` of the module
-- are called with is a `Call`.
pub mod Arguments
use drlee.Prelude.{
  ℕ, zero, suc, ◌+◌, ◌^◌, String, Bool, true, false, Option, none, some, List, [], ◌∷◌,
}
use drlee.Prelude.Result.{Result, ok, raise, panic, ◌>>=◌}
use drlee.Prelude.Dict.{Dict}
use drlee.Lua.{LType, LValue}
use drlee.Params.{Param, number_param, string_param, check}
use drlee.Context.{Returned, fails, gives}

pub data Call : Type 0 where
  open_file : String → ℕ → ℕ → Call
  remove remove_all stat read_dir : String → Call
  mkdir mkdir_all : String → ℕ → Call

-- lFlags, with the values of os on Linux
unfoldable pub flags : Dict ℕ
flags =
    ("READ_ONLY", 0)
    ∷ ("WRITE_ONLY", 1)
    ∷ ("READ_WRITE", 2)
    ∷ ("APPEND", 1024)
    ∷ ("CREATE", 64)
    ∷ ("EXCL", 128)
    ∷ ("SYNC", 1052672)
    ∷ ("TRUNC", 512)
    ∷ []

-- os.ModeDir | os.ModePerm
abbrev pub default_mode : ℕ
default_mode = 2 ^ 31 + 511

module _ {F : Type 0} (number_of : ℕ → F) (int_of : F → ℕ) (bad : ℕ → LType → LType → String) where
  abbrev opening : LValue F × List (Param F) → Result (LValue F × Call)
  opening (cb, string_param path ∷ number_param flag ∷ number_param perm ∷ _) =
      ok (cb, open_file path (int_of flag) (int_of perm))
  opening _ = panic

  -- lOpen up to `ec.Call`: the callback and the call
  unfoldable pub l_open : List (LValue F) → Result (LValue F × Call)
  unfolding check
  l_open frame =
      check "fs.open(path, flag?, mode?, cb?)" bad 1 1
        (string_param "" ∷ number_param (number_of 0) ∷ number_param (number_of 0) ∷ []) frame
      >>= opening

  abbrev with_path : (String → Call) → LValue F × List (Param F) → Result (LValue F × Call)
  with_path call (cb, string_param path ∷ _) = ok (cb, call path)
  with_path _ _ = panic

  -- lRemove, lRemoveAll, lStat and lReadDir
  unfoldable pub path_call : String → (String → Call) → List (LValue F) → Result (LValue F × Call)
  unfolding check
  path_call few call frame = check few bad 1 1 (string_param "" ∷ []) frame >>= with_path call

  unfoldable pub l_remove : List (LValue F) → Result (LValue F × Call)
  unfolding path_call
  l_remove frame = path_call "fs.remove(path, cb?)" remove frame

  unfoldable pub l_remove_all : List (LValue F) → Result (LValue F × Call)
  unfolding path_call
  l_remove_all frame = path_call "fs.remove_all(path, cb?)" remove_all frame

  unfoldable pub l_stat : List (LValue F) → Result (LValue F × Call)
  unfolding path_call
  l_stat frame = path_call "fs.stat(path, cb?)" stat frame

  unfoldable pub l_read_dir : List (LValue F) → Result (LValue F × Call)
  unfolding path_call
  l_read_dir frame = path_call "fs.read_dir(path, cb?)" read_dir frame

  abbrev with_mode : (String → ℕ → Call) → LValue F × List (Param F) → Result (LValue F × Call)
  with_mode call (cb, string_param path ∷ number_param mode ∷ _) = ok (cb, call path (int_of mode))
  with_mode _ _ = panic

  -- lMkdir and lMkdirAll
  unfoldable pub mode_call :
      String → (String → ℕ → Call) → List (LValue F) → Result (LValue F × Call)
  unfolding check
  mode_call few call frame =
      check few bad 1 1 (string_param "" ∷ number_param (number_of default_mode) ∷ []) frame
      >>= with_mode call

  unfoldable pub l_mkdir : List (LValue F) → Result (LValue F × Call)
  unfolding mode_call
  l_mkdir frame = mode_call "fs.mkdir(path, mode?, cb?)" mkdir frame

  unfoldable pub l_mkdir_all : List (LValue F) → Result (LValue F × Call)
  unfolding mode_call
  l_mkdir_all frame = mode_call "fs.mkdir_all(path, mode?, cb?)" mkdir_all frame

-- os.FileInfo, with the modification time as a number of a time.Time
pub record FileInfo : Type 0 where
  pub name : String
  pub is_dir : Bool
  pub mode : ℕ
  pub size : ℕ
  pub mod_time : ℕ

-- createStat: the fields of the table, by kind
pub record Stat : Type 0 where
  pub name : String
  pub isdir : Bool
  pub numbers : Dict ℕ
  pub timestamp : ℕ

unfoldable pub create_stat : FileInfo → Stat
create_stat info = record {
  name = info.name;
  isdir = info.is_dir;
  numbers = ("mode", info.mode) ∷ ("size", info.size) ∷ [];
  timestamp = info.mod_time;
}

-- lReadDir's function: the tables that are appended
unfoldable pub read_dir_result : Returned (List FileInfo) → Returned (List Stat)
unfolding create_stat
read_dir_result (fails err) = fails err
read_dir_result (gives []) = gives []
read_dir_result (gives (info ∷ list)) = elim (read_dir_result (gives list)) [
  | fails err ↦ fails err
  | gives t ↦ gives (create_stat info ∷ t)
]
