-- ===== src/Effects.antt =====
-- Programs that call the services around the server. The handlers of the source are values of
-- `Prog`, so that they can be run alone or interleaved with one another. An HTTP server, Postgres
-- and the message bus answer a call as they like; Effects/World.antt says what is assumed of them.
pub mod Sound
pub mod World
pub mod Run
pub mod Faults
pub mod Follows
pub mod Preserves
use repo_extension.Base.{ℕ, String, ◌≡◌, Bool, Option, none, some, List}
use repo_extension.Base.Text.{Text}
use repo_extension.Base.Int.{ℤ}
use repo_extension.Names.{Triple}
use repo_extension.Errs.{Err, Message, Result, ok, err, err_downstream}
use repo_extension.Json.{Fields}

pub data Server : Type 0 where
  jjlab agent : Server

pub data Method : Type 0 where
  get post put patch delete : Method

-- A piece of a URL: as it stands, behind url.PathEscape or url.QueryEscape, or a printed number.
pub data Piece : Type 0 where
  raw : String → Piece
  path_escape query_escape : Text → Piece
  decimal : ℕ → Piece
  integer : ℤ → Piece
  verbatim : Text → Piece

-- `body` is none where the call has no body.
pub record Request : Type 0 where
  pub method : Method
  pub path : List Piece
  pub body : Option Fields

-- A failed round trip, a status with the decoded body, or a status with a body that does not decode.
pub data HttpReply : Type 0 where
  transport_error : Message → HttpReply
  answered : ℕ → Fields → HttpReply
  garbled : ℕ → Message → HttpReply

-- MapRow of pg.go; rows of managed_repos leave the last two fields empty.
pub record MapRow : Type 0 where
  pub org : Text
  pub repo : Text
  pub bookmark : Text
  pub session_name : Text

-- The SELECT statements of pg.go.
pub data Select : Type 0 where
  row_at : Text → Text → Text → Select
  row_by_session : Text → Select
  rows_for_repo : Text → Text → Select
  all_rows : Select
  managed_at : Text → Text → Select
  all_managed : Select

-- The INSERT, UPDATE and DELETE statements of pg.go.
pub data Exec : Type 0 where
  insert_row : MapRow → Exec
  rename_row : Text → Text → Text → Text → Text → Exec
  delete_row : Text → Text → Text → Exec
  delete_rows_for_repo : Text → Text → Exec
  insert_managed : Text → Text → Exec
  delete_managed : Text → Text → Exec
  insert_executed : Text → Exec

pub data SelectReply : Type 0 where
  selected : List MapRow → SelectReply
  select_failed : Message → SelectReply

-- RowsAffected of the command tag, the error 23505, or any other error.
pub data ExecReply : Type 0 where
  affected : ℕ → ExecReply
  unique_violation : ExecReply
  exec_failed : Message → ExecReply

-- The session cache; `look_up` answers an unexpired entry.
pub data CacheCall : Type 0 where
  look_up : Text → CacheCall
  put_entry : Text → Triple → CacheCall
  evict_entry : Text → CacheCall

-- The calls of the extension SDK, of os.Getenv and of crypto/rand.
pub data ExtCall : Type 0 where
  publish_mailbox_event : Text → String → Fields → ExtCall
  publish_prose : Text → String → Fields → String → Message → ExtCall
  get_session_variable : Text → String → ExtCall
  set_session_variable : Text → String → Text → ExtCall
  delete_session_variables : Text → ExtCall
  get_env : String → ExtCall
  random_id : ExtCall

pub data ExtReply : Type 0 where
  replied : Text → ExtReply
  ext_failed : Message → ExtReply

pub data Eff : Type 0 where
  http : Server → Request → Eff
  select : Select → Eff
  exec : Exec → Eff
  cache : CacheCall → Eff
  ext : ExtCall → Eff

abbrev pub Answer : Eff → Type 0
Answer (http _ _) = HttpReply
Answer (select _) = SelectReply
Answer (exec _) = ExecReply
Answer (cache _) = Option Triple
Answer (ext _) = ExtReply

-- A program returns a value, returns an error, or makes a call and goes on with the answer.
pub data Prog (A : Type 0) : Type 0 where
  ret : A → Prog A
  fail : Err → Prog A
  call : (e : Eff) → (Answer e → Prog A) → Prog A

module _ {A B : Type 0} where
  -- `v, err := m` with both outcomes handled.
  abbrev pub handle : Prog A → (A → Prog B) → (Err → Prog B) → Prog B
  handle (ret a) f g = f a
  handle (fail e) f g = g e
  handle (call e k) f g = call e (λ r. handle (k r) f g)

  infixl 5 ◌>>=◌ ◌>>◌
  -- `if err != nil { return err }`
  abbrev pub ◌>>=◌ : Prog A → (A → Prog B) → Prog B
  m >>= f = handle m f fail

  abbrev pub ◌>>◌ : Prog A → Prog B → Prog B
  m >> n = m >>= λ _. n

module _ {A : Type 0} where
  -- `if err != nil { return errDownstream(what, err) }`
  abbrev pub downstream : Text → Prog A → Prog A
  downstream what m = handle m ret (λ e. fail (err_downstream what e))
