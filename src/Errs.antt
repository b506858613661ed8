-- ===== src/Errs.antt =====
-- errs.go and i18n.go: errors with an HTTP status, and texts made by Sprintf.
use repo_extension.Base.{ℕ, String, Bool, false, ◌&&◌, ◌∷◌, ltb, ◌==◌, if◌then◌else◌}
use repo_extension.Base.Text.{Text}
use repo_extension.Base.Int.{ℤ}
use repo_extension.Json.{Json}

-- A call of fmt.Sprintf or fmt.Errorf, kept as its format and its arguments.
infixl 40 ◌%s◌ ◌%v◌ ◌%d◌ ◌%int64◌ ◌%json◌
pub data Message : Type 0 where
  format : String → Message
  ◌%s◌ : Message → Text → Message
  ◌%v◌ : Message → Message → Message
  ◌%d◌ : Message → ℕ → Message
  ◌%int64◌ : Message → ℤ → Message
  ◌%json◌ : Message → Json → Message

-- `op_error` is *opError; `not_found_for_http` wraps the sentinel of helpers.go; `plain` is any other
-- error.
pub data Err : Type 0 where
  op_error : ℕ → Message → Err
  not_found_for_http : Message → Err
  plain : Message → Err

abbrev pub message_of : Err → Message
message_of (op_error _ m) = m
message_of (not_found_for_http m) = m
message_of (plain m) = m

abbrev pub err_permanent : ℕ → Message → Err
err_permanent status m = op_error status m

abbrev pub err_not_found : Message → Err
err_not_found m = err_permanent 404 m

abbrev pub err_conflict : Message → Err
err_conflict m = err_permanent 409 m

abbrev pub err_bad : Message → Err
err_bad m = err_permanent 400 m

abbrev pub err_downstream : Text → Err → Err
err_downstream what e = op_error 502 (format "%s unavailable: %v" %s what %v message_of e)

-- statusOf
abbrev pub status_of : Err → ℕ
status_of (op_error status _) = status
status_of (not_found_for_http _) = 502
status_of (plain _) = 502

abbrev pub is_permanent : Err → Bool
is_permanent e = ltb (status_of e) 500

pub data Result (A : Type 0) : Type 0 where
  ok : A → Result A
  err : Err → Result A

-- isZh
unfoldable pub is_zh : Text → Bool
is_zh (a ∷ b ∷ _) = a == b'z' && b == b'h'
is_zh _ = false

-- t
unfoldable pub t : Text → Message → Message → Message
unfolding is_zh
t locale en zh = if is_zh locale then zh else en
