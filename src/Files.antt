-- ===== src/Files.antt =====
-- filemanager.go: the file manager's handlers over the operations of package os, which are the
-- parameter `Os`: each takes the state of the host's file system and returns its error or value with
-- the state that it leaves. A request's body is none where it does not decode.
pub mod Change
pub mod Scope
pub mod Sort
pub mod Clipboard
pub mod Listing
pub mod Listed
pub mod Modes
pub mod View
pub mod Copy
pub mod Pasting
pub mod Copying
pub mod Memory
pub mod Tests
use pfortainer.Base.{ℕ, Bool, Option, List, ◌++◌, Text, codes, Result, ok, err}

-- What the handlers read of an os.FileInfo: `owner` is none where Sys() is no *syscall.Stat_t, and
-- `mode_text` and `mod_time` are what Mode().String() and the formatted ModTime() print.
pub record Info : Type 0 where
  pub name : Text
  pub size : ℕ
  pub mode : ℕ
  pub is_dir : Bool
  pub is_link : Bool
  pub owner : Option (ℕ × ℕ)
  pub mode_text : Text
  pub mod_time : Text

pub record Os (W : Type 0) : Type 0 where
  pub stat : Text → W → Result Info
  pub lstat : Text → W → Result Info
  pub readlink : Text → W → Result Text
  pub lookup_user : Text → Result Text
  pub lookup_group : Text → Result Text
  pub open_dir : Text → W → Result (Unit {0})
  pub read_dir : Text → W → Result (List Info)
  pub open_file : Text → W → Result (Unit {0})
  pub read_file : Text → W → Result Text
  pub write_file : Text → Text → ℕ → W → Result (Unit {0}) × W
  pub create_new : Text → ℕ → W → Result (Unit {0}) × W
  pub truncate : Text → ℕ → W → Result (Unit {0}) × W
  pub append : Text → Text → W → Result (Unit {0}) × W
  pub mkdir : Text → ℕ → W → Result (Unit {0}) × W
  pub remove_all : Text → W → Result (Unit {0}) × W
  pub rename : Text → Text → W → Result (Unit {0}) × W
  pub chmod : Text → ℕ → W → Result (Unit {0}) × W

-- writeJSON with {"success": true}, or with a status and {"error": …}.
pub data Answer : Type 0 where
  success : Answer
  refused : (status : ℕ) (error : Text) → Answer

abbrev pub bad_body : Answer
bad_body = refused 400 (codes "잘못된 요청입니다.")

abbrev pub bad_path : Answer
bad_path = refused 400 (codes "잘못된 경로입니다.")

abbrev pub bad_name : Answer
bad_name = refused 400 (codes "잘못된 이름입니다.")

module _ {W : Type 0} where
  -- The end of a handler that makes one call of package os.
  unfoldable pub answered : ℕ → Text → Result (Unit {0}) × W → Answer × W
  answered status prefix (ok _, w) = (success, w)
  answered status prefix (err e, w) = (refused status (prefix ++ e), w)
