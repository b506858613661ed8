-- ===== src/Tools/Files/Locking.antt =====
-- What the optimistic lock of edit asks of its calls, and the reading of the file (tools.go: readFileRaw).
use repo_extension.Base.{ℕ, ◌≡◌, refl, Option, none, some, List, leb, ◌==◌, if◌then◌else◌, [], ◌∷◌}
use repo_extension.Base.Int.{ℤ, pos}
use repo_extension.Base.Text.{Text, codes, is_empty}
use repo_extension.Names.{Triple, parse_session}
use repo_extension.Store
use repo_extension.Errs.{Err, Message, format, plain, ◌%v◌}
use repo_extension.Json.{Items, Fields, end, array, field, str_from}
use repo_extension.Effects.{
  Eff, Answer, http, select, exec, cache, ext, jjlab, agent, Method, get, post, Piece, raw, Request,
  selected, select_failed, HttpReply, transport_error, answered, garbled, Prog, ret, fail, ◌>>=◌,
}
use repo_extension.Effects.Follows.{Follows, Follows-bind, Follows-if}
use repo_extension.Http.{string_field, repo_path, checked}
use repo_extension.Jjlab.Effect.{request}
use repo_extension.I18n.{ef, lc, env_or, locale_of}
use repo_extension.Session.{resolve_session, resolve_row, resolve_miss}
use repo_extension.Tools.{edited, apply_line_edit}
use repo_extension.Tools.Host.{Host}
use repo_extension.Tools.Sessions.{session_base}
use repo_extension.Tools.Files.{contents_path, read_file_raw, file_size}
use repo_extension.Tools.Files.Writing.{update_action}

-- The file that was read last: the path of the request, the text and the sha.
abbrev pub Seen : Type 0
Seen = Option (List Piece × Text × Text)

abbrev pub commit_request : Text → Text → Text → Text → Items → Request
commit_request o r b message actions = request post (repo_path o r (raw "/commits" ∷ [])) (
    some (
      string_field "bookmark" b
        (string_field "message" message (field (codes "actions") (array actions) end))))

abbrev pub AnySeen : {A : Type 0} → A → Seen → Type 0
AnySeen _ _ = Unit

module _ (host : Host) (args : Fields) where
  -- A commit of the edit of the text that was read last, based on the sha that was read with it.
  pub record IsLocked (s : Seen) (q : Request) : Type 0 where
    pub place : Triple
    pub message : Text
    pub old : Text
    pub sha : Text
    pub new : Text
    pub was_read :
        s ≡ some (contents_path place.0 place.1 place.2 (host.arg_string args "path"), old, sha)
    pub was_edited :
        apply_line_edit old
          (host.arg_int args "start-line" (pos 0))
          (host.arg_int args "end-line" (pos 0))
          (host.arg_string args "content")
        ≡ edited new
    pub writes :
        q
        ≡ commit_request place.0 place.1 place.2 message
            (update_action host (host.arg_string args "path") new sha)

  abbrev IsLockedBy : Seen → Request → Method → Type 0
  IsLockedBy s q get = Unit
  IsLockedBy s q post = IsLocked s q
  IsLockedBy s q _ = ⊥

  abbrev pub AllowedEdit : Seen → Eff → Type 0
  AllowedEdit s (http jjlab q) = IsLockedBy s q q.method
  AllowedEdit s (http agent q) = ⊥
  AllowedEdit s (exec x) = ⊥
  AllowedEdit s (select q) = Unit
  AllowedEdit s (cache c) = Unit
  AllowedEdit s (ext c) = Unit

  abbrev decoded : List Piece → Fields → Option Text → Seen
  decoded path v none = none
  decoded path v (some old) = some (path, old, str_from v (codes "sha"))

  abbrev file_of : List Piece → HttpReply → Seen
  file_of path (answered status v) =
      if leb 400 status
      then none
      else decoded path v (host.decode_base64 (str_from v (codes "content")))
  file_of path _ = none

  abbrev after_request : Request → HttpReply → Method → Seen
  after_request q r get = file_of q.path r
  after_request q r _ = none

  -- A commit uses the file up.
  abbrev pub seen_next : Seen → (e : Eff) → Answer e → Seen
  seen_next s (http jjlab q) r = after_request q r q.method
  seen_next s (http agent q) r = s
  seen_next s (exec x) r = s
  seen_next s (select q) r = s
  seen_next s (cache c) r = s
  seen_next s (ext c) r = s

  abbrev pub Locks : {A : Type 0} → (A → Seen → Type 0) → Prog A → Seen → Type 0
  Locks Q m s = Follows AllowedEdit seen_next Q m s

  pub then-Locks :
      {A B : Type 0} (Q : B → Seen → Type 0) (m : Prog A) (f : A → Prog B) (s : Seen)
      → Locks AnySeen m s
      → ((a : A) (t : Seen) → Locks Q (f a) t)
      → Locks Q (m >>= f) s
  then-Locks Q m f s h hf = Follows-bind AllowedEdit seen_next AnySeen Q m f s h (λ a t _. hf a t)

  locale_of-Locks : (sid d : Text) (s : Seen) → Locks AnySeen (locale_of sid d) s
  unfolding locale_of
  locale_of-Locks sid d s =
      Follows-if AllowedEdit seen_next AnySeen (is_empty sid) _ _ s (λ _. tt) (λ _. (tt, λ _. tt))

  pub lc-Locks : (sid : Text) (en zh : Message) (s : Seen) → Locks AnySeen (lc sid en zh) s
  unfolding lc env_or
  lc-Locks sid en zh s =
      (tt, λ r. then-Locks AnySeen (locale_of sid _) _ s (locale_of-Locks sid _ s) (λ _ _. tt))

  pub ef-Locks :
      (A : Type 0) (sid : Text) (en zh : Message) (s : Seen)
      → Locks {A = A} AnySeen (ef sid en zh) s
  unfolding ef
  ef-Locks A sid en zh s = then-Locks AnySeen (lc sid en zh) _ s (lc-Locks sid en zh s) (λ _ _. tt)

  miss-Locks :
      (sid : Text) (t : Option Triple) (s : Seen)
      → Locks AnySeen (resolve_miss {A = Triple} sid t) s
  miss-Locks sid none s = tt
  miss-Locks sid (some t) s = tt

  resolve_row-Locks : (sid : Text) (s : Seen) → Locks AnySeen (resolve_row sid) s
  unfolding resolve_row Store.get_row_by_session
  resolve_row-Locks sid s = (
    tt,
    elim [
      | select_failed m ↦ tt
      | selected [] ↦ miss-Locks sid (parse_session sid) s
      | selected (x ∷ rows) ↦ (tt, λ _. tt)
    ],
  )

  pub session_base-Locks : (sid : Text) (s : Seen) → Locks AnySeen (session_base sid) s
  unfolding session_base resolve_session
  session_base-Locks sid s =
      Follows-if AllowedEdit seen_next AnySeen (is_empty sid) _ _ s (λ _. tt)
        λ _. (tt, elim [ some t ↦ tt | none ↦ resolve_row-Locks sid s ])

  -- What was read.
  abbrev pub WasRead : List Piece → Text × Text × ℤ → Seen → Type 0
  WasRead path (old, sha, _) t = t ≡ some (path, old, sha)

  decoded-Locks :
      (path : List Piece) (v : Fields) (d : Option Text) (t : Seen)
      → t ≡ decoded path v d
      → Locks
          (WasRead path)
          (elim d [
            | none ↦ fail (plain (format "failed to base64-decode file content"))
            | some raw_text ↦ ret (raw_text, str_from v (codes "sha"), file_size host v raw_text)
          ])
          t
  decoded-Locks path v none t e = tt
  decoded-Locks path v (some old) t e = e

  pub garbled-Locks :
      (Q : Fields → Seen → Type 0) (status : ℕ) (e : Err) (s : Seen)
      → Locks Q (checked status (fail e)) s
  garbled-Locks Q status e s =
      Follows-if AllowedEdit seen_next Q (status == 404) _ _ s (λ _. tt)
        λ _. Follows-if AllowedEdit seen_next Q (leb 400 status) _ _ s (λ _. tt) (λ _. tt)

  pub read-Locks :
      (o r b path : Text) (s : Seen)
      → Locks (WasRead (contents_path o r b path)) (read_file_raw host o r b path) s
  unfolding read_file_raw
  read-Locks o r b path s = (
    tt,
    elim [
      | transport_error m ↦ tt
      | answered status v ↦
          let place = contents_path o r b path in
          Follows-bind AllowedEdit seen_next
            (λ u t. t ≡ decoded place u (host.decode_base64 (str_from u (codes "content"))))
            (WasRead place) (checked status (ret v)) _ (file_of place (answered status v))
            (Follows-if AllowedEdit seen_next _ (status == 404) _ _ _ (λ _. tt)
              λ _.
                Follows-if AllowedEdit seen_next _ (leb 400 status) _ _ _ (λ _. tt)
                  (λ e. rw e refl))
            (λ u t e. decoded-Locks place u _ t e)
      | garbled status m ↦
          Follows-bind AllowedEdit seen_next (λ _ _. ⊥) (WasRead (contents_path o r b path))
            (checked status (fail (plain (format "%s %s: decode response: %w" %v m)))) _ none
            (garbled-Locks (λ _ _. ⊥) status (plain (format "%s %s: decode response: %w" %v m))
              none)
            (λ u t e. absurd e)
    ],
  )
