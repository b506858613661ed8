-- ===== src/System/Fixture.antt =====
-- A small server and its worlds, for the tests.
use repo_extension.Base.{◌≡◌, refl, some, List, [], ◌∷◌}
use repo_extension.Base.Text.{Text, codes, split}
use repo_extension.Names.{parse_session}
use repo_extension.Json.{Json, nil, cons, Fields, end, field, text, array, object}
use repo_extension.Effects.{answered, MapRow, replied}
use repo_extension.Effects.World.{Net, World, Fate}
use repo_extension.Cache.{new_sess_cache}
use repo_extension.Discipline.{IsConsistent}
use repo_extension.Discipline.Rows.{IsReordering}
use repo_extension.Session.{mapping}

abbrev pub org : Text
org = codes "o"

abbrev pub repo : Text
repo = codes "r"

abbrev pub bookmark : Text
bookmark = codes "b"

abbrev pub sid : Text
sid = codes "o:r:b"

abbrev main_bookmark : Json
main_bookmark = object (field (codes "name") (text (codes "main")) end)

-- A server with the bookmark main in o/r answers every request with one body.
abbrev body : Fields
body =
    field (codes "orgs")
      (array (
        cons
          (object (
            field (codes "org") (text org) (
              field (codes "repos")
                (array (cons (object (field (codes "repo") (text repo) end)) nil)) end)))
          nil))
      (field (codes "bookmarks") (array (cons main_bookmark nil)) (
        field (codes "sessions") (array (cons (object (field (codes "name") (text sid) end)) nil))
          end))

abbrev pub net : Net Unit
net = record {
  http_call = λ server request u. (answered 200 body, u);
  ext_call = λ c u. (replied [], u);
  order = λ rows. rows;
}

abbrev pub world : List MapRow → List Fate → World Unit
world rows fates = record {
  tables = record { rows = rows; managed = []; executed = [] };
  cache = new_sess_cache 5;
  now = 0;
  fates = fates;
  remote = tt;
}

abbrev pub bound_row : MapRow
bound_row = mapping org repo bookmark sid

pub spells : parse_session sid ≡ some (org, repo, bookmark)
unfolding parse_session split
spells = refl

pub reorders : IsReordering net.order
reorders rows r = (λ m. m, λ m. m)

pub empty_world : (fates : List Fate) → IsConsistent (world [] fates)
empty_world fates = record { named = tt; unique = tt; cached = tt }

pub bound_world : (fates : List Fate) → IsConsistent (world (bound_row ∷ []) fates)
bound_world fates = record { named = (spells, tt); unique = (tt, tt); cached = tt }
