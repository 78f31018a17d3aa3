-- ===== src/Query/Scope.antt =====
-- `parse_scope` and `resolve_user_filter` of src/server/handlers/metrics.rs: whose events a request may
-- read. The answers of the database are arguments: whether the user is an admin, the user's role in a
-- team and the members of a team, each `none` when it fails.
use toki_sync.Prelude.{
  ◌≡◌, ◌⊎◌, refl, Bool, true, false, not, ◌&&◌, Option, none, some, List, Str, lit, str_eq,
  is_empty, take, drop, if◌then◌else◌, arith, Result, ok, err, Bool-cases, inl, inr,
}
use toki_sync.Events.{UserFilter, single, multiple, everyone}
use toki_sync.Query.{QueryError, bad_request, forbidden, internal}

pub data Scope : Type 0 where
  self : Scope
  team : Str → Scope
  all : Scope
  invalid : Scope

unfoldable pub parse_scope : Str → Scope
parse_scope s =
    if str_eq s (lit "self")
    then self
    else if str_eq s (lit "all")
    then all
    else if str_eq (take 5 s) (lit "team:")
    then if is_empty (drop 5 s) then invalid else team (drop 5 s)
    else invalid

pub record Directory : Type 0 where
  pub max_query_scope : Str
  pub user_is_admin : Str → Option Bool
  -- By team and user.
  pub get_team_member_role : Str → Str → Option (Option Str)
  pub list_team_members : Str → Option (List Str)

abbrev pub Filter : Type 0
Filter = Result UserFilter QueryError

abbrev pub team_filter : Directory → Str → Option (List Str) → Filter
team_filter db team_id none = err internal
team_filter db team_id (some members) = ok (multiple members)

abbrev pub as_member : Directory → Str → Option (Option Str) → Filter
as_member db team_id none = err internal
as_member db team_id (some none) = err forbidden
as_member db team_id (some (some role)) = team_filter db team_id (db.list_team_members team_id)

abbrev pub scoped : Directory → Str → Bool → Scope → Filter
scoped db user_id is_admin self = ok (single user_id)
scoped db user_id is_admin (team team_id) =
    if not is_admin && str_eq db.max_query_scope (lit "self")
    then err forbidden
    else if is_admin
    then team_filter db team_id (db.list_team_members team_id)
    else as_member db team_id (db.get_team_member_role team_id user_id)
scoped db user_id is_admin all =
    if not is_admin && not (str_eq db.max_query_scope (lit "all"))
    then err forbidden
    else ok everyone
scoped db user_id is_admin invalid = err bad_request

abbrev pub by_admin : Directory → Str → Str → Option Bool → Filter
by_admin db user_id requested none = err internal
by_admin db user_id requested (some is_admin) = scoped db user_id is_admin (parse_scope requested)

unfoldable pub resolve_user_filter : Directory → Str → Str → Filter
resolve_user_filter db user_id requested = by_admin db user_id requested (db.user_is_admin user_id)

-- What entitles a user to a filter.
abbrev pub IsEntitled : Directory → Str → UserFilter → Type 0
IsEntitled db user_id (single uid) = uid ≡ user_id
IsEntitled db user_id (multiple uids) =
    (team_id : Str) × (db.list_team_members team_id ≡ some uids)
    × ((db.user_is_admin user_id ≡ some true)
        ⊎ (((role : Str) × (db.get_team_member_role team_id user_id ≡ some (some role)))
            × (str_eq db.max_query_scope (lit "self") ≡ false)))
IsEntitled db user_id everyone =
    (db.user_is_admin user_id ≡ some true) ⊎ (str_eq db.max_query_scope (lit "all") ≡ true)

team_filter_inv :
    (db : Directory) (team_id : Str) (o : Option (List Str)) (f : UserFilter)
    → team_filter db team_id o ≡ ok f
    → (uids : List Str) × (o ≡ some uids) × (f ≡ multiple uids)
team_filter_inv db team_id none f h = absurd (ground arith)
team_filter_inv db team_id (some uids) f h = (uids, refl, ground arith)

module _ (db : Directory) (user_id : Str) (f : UserFilter) where
  team-IsEntitled :
      (team_id : Str)
      → team_filter db team_id (db.list_team_members team_id) ≡ ok f
      → (db.user_is_admin user_id ≡ some true)
        ⊎ (((role : Str) × (db.get_team_member_role team_id user_id ≡ some (some role)))
            × (str_eq db.max_query_scope (lit "self") ≡ false))
      → IsEntitled db user_id f
  team-IsEntitled team_id h why =
      let i = team_filter_inv db team_id (db.list_team_members team_id) f h in
      rw (i.2) (team_id, i.1, why)

  member-IsEntitled :
      (team_id : Str) (o : Option (Option Str))
      → as_member db team_id o ≡ ok f
      → db.get_team_member_role team_id user_id ≡ o
      → str_eq db.max_query_scope (lit "self") ≡ false
      → IsEntitled db user_id f
  member-IsEntitled team_id none h e m = absurd (ground arith)
  member-IsEntitled team_id (some none) h e m = absurd (ground arith)
  member-IsEntitled team_id (some (some role)) h e m =
      team-IsEntitled team_id h (inr ((role, e), m))

  scoped-IsEntitled :
      (is_admin : Bool) (s : Scope)
      → scoped db user_id is_admin s ≡ ok f
      → db.user_is_admin user_id ≡ some is_admin
      → IsEntitled db user_id f
  scoped-IsEntitled is_admin self h a = let e : f ≡ single user_id = ground arith in rw e refl
  scoped-IsEntitled true (team team_id) h a = team-IsEntitled team_id h (inl a)
  scoped-IsEntitled false (team team_id) h a =
      elim (Bool-cases (str_eq db.max_query_scope (lit "self"))) [
        | inl e ↦ absurd (ground arith)
        | inr e ↦
            member-IsEntitled team_id (db.get_team_member_role team_id user_id) (rw e at h) refl e
      ]
  scoped-IsEntitled true all h a = let e : f ≡ everyone = ground arith in rw e (inl a)
  scoped-IsEntitled false all h a = elim (Bool-cases (str_eq db.max_query_scope (lit "all"))) [
    | inl e ↦ let g : f ≡ everyone = ground arith in rw g (inr e)
    | inr e ↦ absurd (ground arith)
  ]
  scoped-IsEntitled is_admin invalid h a = absurd (ground arith)

  admin-IsEntitled :
      (requested : Str) (o : Option Bool)
      → by_admin db user_id requested o ≡ ok f
      → db.user_is_admin user_id ≡ o
      → IsEntitled db user_id f
  admin-IsEntitled requested none h a = absurd (ground arith)
  admin-IsEntitled requested (some is_admin) h a =
      scoped-IsEntitled is_admin (parse_scope requested) h a

-- A filter that is granted is the user's own; or the members of a team, for an admin, or for one of its
-- members while the settings allow more than `self`; or everyone, for an admin or while the settings
-- say `all`.
pub resolve_user_filter-IsEntitled :
    (db : Directory) (user_id requested : Str) (f : UserFilter)
    → resolve_user_filter db user_id requested ≡ ok f
    → IsEntitled db user_id f
unfolding resolve_user_filter
resolve_user_filter-IsEntitled db user_id requested f h =
    admin-IsEntitled db user_id f requested (db.user_is_admin user_id) h refl
