-- ===== src/Hostd.antt =====
-- hostd.go: the host agent, which runs commands as root. `Shell` is the host: what a command prints,
-- and its error if it failed, may depend on all commands before it. The agent's state is the list of
-- the commands that it has run, in order. The audit log is left out.
pub mod Zfs
pub mod Users
pub mod Smb
pub mod Replication
pub mod Shares
use pfortainer.Base.{
  inl, inr, Bool, not, Option, none, some, List, [], ◌∷◌, ◌++◌, Text, codes, if◌then◌else◌,
  Bool-cases, Option-cases,
}
use pfortainer.Http.{Response, http_error, json}

pub record Command : Type 0 where
  pub args : List Text
  pub stdin : Text

abbrev pub Log : Type 0
Log = List Command

abbrev pub Shell : Type 0
Shell = Log → Command → Text × Option Text

abbrev pub command : List Text → Command
command args = record { args = args; stdin = [] }

-- exec.Command(…).CombinedOutput(), or Output() or Run().
abbrev pub exec : Shell → Command → Log → (Text × Option Text) × Log
exec sh cmd log = (sh log cmd, log ++ cmd ∷ [])

-- A request: whether it is a POST, and its body, none where it does not decode.
pub record Request (A : Type 0) : Type 0 where
  pub is_post : Bool
  pub body : Option A

abbrev pub bad_request : Response
bad_request = http_error 400 (codes "bad request")

abbrev pub success : Response
success = json (codes "{\"success\":true}")

module _ {A : Type 0} where
  -- The two tests at the start of a handler.
  unfoldable pub with_body : Request A → (A → Log → Log × Response) → Log → Log × Response
  with_body q f log =
      if not q.is_post
      then (log, http_error 405 (codes "POST only"))
      else elim q.body [ none ↦ (log, bad_request) | some b ↦ f b log ]

  -- What both tests and the handler keep.
  pub with_body-keeps :
      (P : Log → Type 0) (q : Request A) (f : A → Log → Log × Response) (log : Log)
      → P log
      → ((b : A) → P (f b log).0)
      → P (with_body q f log).0
  unfolding with_body
  with_body-keeps P q f log h keeps = elim (Bool-cases (not q.is_post)) [
    | inl e ↦ rw (with_body, e) h
    | inr e ↦ elim (Option-cases q.body) [
      | inl n ↦ rw (with_body, e, n) h
      | inr (b, s) ↦ rw (with_body, e, s) (keeps b)
    ]
  ]
