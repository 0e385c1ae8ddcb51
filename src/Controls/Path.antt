-- ===== src/Controls/Path.antt =====
-- server/control-utils.c: the search for a member of the device map by its path.
use Prim.Native.String.{String}
use fcp_support.Base.{ℕ, ◌+◌, ◌%◌, ◌^◌, List, [], ◌∷◌, Option, none, some, if◌then◌else◌}
use fcp_support.Controls.{Sources, get, number}

-- What the search comes to: the member and its type, the sum of the offsets, and the last notify values
-- that are not null; -1; or the use of a type that is missing, which C does not define.
pub data Search (J : Type 0) : Type 0 where
  found : J → String → ℕ → ℕ → ℕ → Search J
  missing undefined : Search J

module _ {D : Type 0} (sources : Sources D) where
  abbrev J : Type 0
  J = sources.json.Json

  -- A notify value, or the one of the members before.
  abbrev last_notify : Option J → ℕ → ℕ
  last_notify none before = before
  last_notify (some j) before = if sources.json.is_null j then before else number sources (some j)

  abbrev members_of : Option J → Option J
  members_of none = none
  members_of (some s) = get sources s "members"

  abbrev struct_members : J → String → Option J
  struct_members structs t = members_of (get sources structs t)

  -- Go on with the members of the struct of the type, or end.
  abbrev next_members : Option J → (J → Search J) → Search J
  next_members none f = missing
  next_members (some m) f = f m

  abbrev on_type :
      J → J → List String → (J → ℕ → ℕ → ℕ → Search J) → Option J → ℕ → ℕ → ℕ → Search J
  on_type structs member tokens next none offset nd nc = undefined
  on_type structs member [] next (some t) offset nd nc =
      found member (sources.json.get_string t) offset nd nc
  on_type structs member (token ∷ tokens) next (some t) offset nd nc =
      next_members (struct_members structs (sources.json.get_string t)) (λ m. next m offset nd nc)

  abbrev on_member : J → List String → (J → ℕ → ℕ → ℕ → Search J) → Option J → ℕ → ℕ → ℕ → Search J
  on_member structs tokens next none offset nd nc = missing
  on_member structs tokens next (some member) offset nd nc =
      on_type structs member tokens next (get sources member "type")
        ((offset + number sources (get sources member "offset")) % 2 ^ 32)
        (last_notify (get sources member "notify-device") nd)
        (last_notify (get sources member "notify-client") nc)

  -- The loop over the tokens, from the members of a struct on. A path has a token at least.
  unfoldable pub walk : J → List String → J → ℕ → ℕ → ℕ → Search J
  walk structs [] members offset nd nc = undefined
  walk structs (token ∷ tokens) members offset nd nc =
      on_member structs tokens (walk structs tokens) (get sources members token) offset nd nc

  abbrev from_app_space : String → Option J → Search J
  from_app_space path none = missing
  from_app_space path (some structs) =
      next_members (struct_members structs "APP_SPACE")
        (λ members. walk structs (sources.split path) members 0 0 0)

  -- `find_member_by_path_with_notify`
  unfoldable pub find_member_by_path_with_notify : String → Search J
  unfolding walk
  find_member_by_path_with_notify path = from_app_space path (get sources sources.devmap "structs")

  -- `find_member_by_path`
  unfoldable pub find_member_by_path : String → Search J
  unfolding find_member_by_path_with_notify
  find_member_by_path path = find_member_by_path_with_notify path
