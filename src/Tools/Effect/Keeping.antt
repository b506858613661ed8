-- ===== src/Tools/Effect/Keeping.antt =====
-- The tools under the discipline of the mapping.
use repo_extension.Base.Text.{Text, Lacks}
use repo_extension.Names.{colon}
use repo_extension.Names.Bijection.{naming_session-parse_session}
use repo_extension.Json.{Fields}
use repo_extension.Effects.Sound.{Sound-weaken}
use repo_extension.Discipline.{Allowed, Rely, Keeps, Always}
use repo_extension.Session.{adopt_bookmark}
use repo_extension.Session.Adopt.{Adopted, adopt_bookmark-Keeps}
use repo_extension.Session.Resolve.{Spells, resolve_session-Keeps}
use repo_extension.Tools.Host.{Host}
use repo_extension.Tools.Dispatch.{Tool, execute}
use repo_extension.Tools.Effect.{Policy, safe}
use repo_extension.Tools.Effect.Requests.{Grants}
use repo_extension.Tools.Effect.Execute.{execute-IsSafe}

abbrev disciplined : Policy
disciplined = record {
  Allowed = Allowed;
  Rely = Rely;
  asks_env = λ k. tt;
  asks_variable = λ s k. tt;
  lookups = λ server path. tt;
  Has = Spells;
  resolves = resolve_session-Keeps;
}

grants : (sid target : Text) → Lacks colon target → Grants disciplined sid target
grants sid target lt = record {
  knows = λ w h. h;
  sends = λ server q h. tt;
  tells = λ to kind body key m. tt;
  draws = tt;
  adopts = λ o r b h. safe disciplined (adopt_bookmark o r target) (
      Sound-weaken Allowed Rely (Adopted o r target) Always (adopt_bookmark o r target) (λ _ _. tt)
        (adopt_bookmark-Keeps o r target (naming_session-parse_session sid o r b h).1
          (naming_session-parse_session sid o r b h).2 lt));
}

pub execute-Keeps :
    (host : Host) (tool : Tool) (args : Fields) (call_id sid : Text)
    → Lacks colon (host.arg_string args "target")
    → Keeps Always (execute host tool args call_id sid)
execute-Keeps host tool args call_id sid h =
    (execute-IsSafe disciplined host args call_id sid (grants sid (host.arg_string args "target") h)
      tool).sound
