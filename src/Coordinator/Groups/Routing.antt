-- ===== src/Coordinator/Groups/Routing.antt =====
-- internal/coordinator/group.go: the map of groups under a request.
use mini_kafka.Prelude.{
  ℕ, ◌≡◌, refl, sym, ap, ◌∙◌, Bool-cases, inl, inr, false, Option, none, some, List, [], ◌∷◌,
  length, ◌==◌, str_eq, str_eq_iff, if◌then◌else◌,
}
use mathlib.Core.Option.{some-injective}
use mini_kafka.Protocol.Stream.{Bytes}
use mini_kafka.Protocol.Requests.JoinGroup.{JoinGroupRequest}
use mini_kafka.Coordinator.Group.{Group, Member, join}
use mini_kafka.Coordinator.Group.Joining.{join-id}
use mini_kafka.Coordinator.Group.Members.{str_eq-sym}
use mini_kafka.Coordinator.Groups.{
  GroupCoordinator, find_group, put_group, joined_group, member_id_of, join_group,
}

find_group-put_group :
    (id : Bytes) (g : Group) (gs : List Group)
    → find_group id (put_group g gs) ≡ (if str_eq g.id id then some g else find_group id gs)
unfolding find_group put_group
find_group-put_group id g [] = refl
find_group-put_group id g (other ∷ gs) = elim (Bool-cases (str_eq other.id g.id)) [
  | inl same ↦ rw same (elim (Bool-cases (str_eq g.id id)) [
    | inl here ↦ rw here refl
    | inr away ↦ rw (away, ap (λ i. str_eq i id) ((str_eq_iff other.id g.id).0 same) ∙ away) refl
  ])
  | inr differs ↦ rw differs (elim (Bool-cases (str_eq other.id id)) [
    | inl there ↦
        rw
          (
            there,
            ap (str_eq g.id) (sym ((str_eq_iff other.id id).0 there))
                ∙ str_eq-sym g.id other.id
                ∙ differs,
          )
          refl
    | inr further ↦ rw further (find_group-put_group id g gs)
  ])
]

find_group-id : (id : Bytes) (gs : List Group) (g : Group) → find_group id gs ≡ some g → g.id ≡ id
unfolding find_group
find_group-id id [] g e = cc
find_group-id id (x ∷ gs) g e = elim (Bool-cases (str_eq x.id id)) [
  | inl here ↦
      let e' : some x ≡ some g = rw here at e in
      rw (sym (some-injective x g e')) ((str_eq_iff x.id id).0 here)
  | inr other ↦ let e' : find_group id gs ≡ some g = rw other at e in find_group-id id gs g e'
]

joined_group-id :
    (req : JoinGroupRequest) (gs : List Group) (found : Option Group)
    → find_group req.group_id gs ≡ found
    → (joined_group req found).id ≡ req.group_id
unfolding joined_group
joined_group-id req gs none e = refl
joined_group-id req gs (some g) e = find_group-id req.group_id gs g e

-- After a JoinGroup with a group id that is not empty, the group of that id is what the join makes
-- of the group that was there, or of a new one, with the member id of the request or a generated
-- one; every other group is as it was.
pub find_group-join_group :
    (pick : List Member → Bytes) (now : ℕ) (gc : GroupCoordinator) (req : JoinGroupRequest)
    (client_id hex id : Bytes)
    → (length req.group_id == 0) ≡ false
    → find_group id (join_group pick now gc req client_id hex).0.groups ≡ (
        if str_eq req.group_id id
        then some (
            join pick now
              (joined_group req (find_group req.group_id gc.groups))
              req
              (member_id_of req client_id hex))
        else find_group id gc.groups)
unfolding join_group
find_group-join_group pick now gc req client_id hex id named = rw named (
    find_group-put_group id g gc.groups
    ∙ ap (λ i. if str_eq i id then some g else find_group id gc.groups) own_id)
  where
    g : Group
    g =
        join pick now (joined_group req (find_group req.group_id gc.groups)) req
          (member_id_of req client_id hex)

    own_id : g.id ≡ req.group_id
    own_id = join-id pick now _ req _ ∙ joined_group-id req gc.groups _ refl
