-- ===== src/Service/Contracts/Repeated.antt =====
-- The property called F3 of crates/service/src/lib.rs: repeating a request changes nothing more.
use twitter_rust_formal_veri.Prelude.{
  Str, str_eq_refl, ◌≡◌, true, false, unwrap_or, some, arith, Option-cases, inl, inr, err, is_empty,
  if◌then◌else◌, [], ◌∷◌,
}
use twitter_rust_formal_veri.Std.HashMap
use twitter_rust_formal_veri.Std.HashMap.{get-insert, insert_present}
use twitter_rust_formal_veri.Std.HashSet
use twitter_rust_formal_veri.Domain
use twitter_rust_formal_veri.Domain.{Follow}
use twitter_rust_formal_veri.Store
use twitter_rust_formal_veri.Store.{Inner, add_edge, put_follow, delete_follow}
use twitter_rust_formal_veri.Service.{
  Service, follow, unfollow, create_user, duplicate_user, empty_handle, from_store,
}
use twitter_rust_formal_veri.Service.Calls.{user_made}

-- Adding an edge a second time leaves the very same map.
add_edge_again :
    (follows : HashMap.HashMap HashSet.HashSet) (from to : Str)
    → add_edge (add_edge follows from to) from to ≡ add_edge follows from to
unfolding add_edge
add_edge_again follows from to =
    let set = HashSet.insert (unwrap_or HashSet.empty (HashMap.get follows from)) to in
    let stored = HashMap.insert follows from set in
    let there : HashMap.get stored from ≡ some set =
      ground (arith, get-insert follows from from set, str_eq_refl from) in
    let has : HashSet.contains set to ≡ true = ground (
      arith,
      HashSet.contains-insert (unwrap_or HashSet.empty (HashMap.get follows from)) to to,
      str_eq_refl to,
    ) in
    rw (there, HashSet.insert_present set to has) (insert_present stored from set there)

put_follow_again : (f : Follow) (g : Inner) → put_follow f (put_follow f g).1 ≡ put_follow f g
unfolding put_follow
put_follow_again f g = ground (arith, add_edge_again g.follows f.from f.to)

delete_follow_again :
    (from to : Str) (g : Inner)
    → delete_follow from to (delete_follow from to g) ≡ delete_follow from to g
unfolding delete_follow
delete_follow_again from to g = elim (Option-cases (HashMap.get g.follows from)) [
  | inl e ↦ ground arith
  | inr (set, e) ↦
      let left = HashSet.remove set to in
      let there : HashMap.get (HashMap.insert g.follows from left) from ≡ some left =
        ground (arith, get-insert g.follows from from left, str_eq_refl from) in
      let gone : HashSet.contains left to ≡ false =
        ground (arith, HashSet.contains-remove set to to, str_eq_refl to) in
      ground (
        arith,
        there,
        HashSet.remove_absent left to gone,
        insert_present (HashMap.insert g.follows from left) from left there,
      )
]

has_user-delete_follow :
    (from to : Str) (g : Inner) (h : Str)
    → Store.has_user (delete_follow from to g) h ≡ Store.has_user g h
unfolding delete_follow Store.has_user
has_user-delete_follow from to g h = ground arith

module _ {C : Type 0} (s : Service C) (from to : Str) where
  -- A repeated `follow` answers what the first did and leaves the same state, whichever it was.
  follow_again : follow from to (follow from to s).1 ≡ follow from to s
  unfolding follow Domain.new
  follow_again = ground (arith, put_follow_again (record { from = from; to = to }) s.st)

  -- A repeated `unfollow` answers what the first did and leaves the same state, whichever it was.
  unfollow_again : unfollow from to (unfollow from to s).1 ≡ unfollow from to s
  unfolding unfollow
  unfollow_again = ground (
    arith,
    delete_follow_again from to s.st,
    has_user-delete_follow from to s.st from,
    has_user-delete_follow from to s.st to,
  )

-- A second user of one handle is refused, whatever the first request answered, and the state of the
-- store is the one that the first left.
create_user_again :
    {C : Type 0} (s : Service C) (handle : Str)
    → let s' = (create_user handle s).1 in
      ((create_user handle s').0
        ≡ (if is_empty handle then err empty_handle else err duplicate_user))
      × ((create_user handle s').1.st ≡ s'.st)
unfolding create_user from_store Store.put_user
create_user_again s [] = ground arith
create_user_again s (c ∷ handle) = ground (
  arith,
  HashMap.contains_key-insert s.st.users (c ∷ handle) (c ∷ handle) (user_made (c ∷ handle) s),
  str_eq_refl (c ∷ handle),
)

-- A repeated request leaves the store as the first did: `follow` and `unfollow` answer the same again
-- and leave the same state, whatever the answer was, and a second user of one handle is refused.
pub requests_again :
    {C : Type 0} (s : Service C) (from to handle : Str)
    → (follow from to (follow from to s).1 ≡ follow from to s)
      × (unfollow from to (unfollow from to s).1 ≡ unfollow from to s)
      × ((create_user handle (create_user handle s).1).0
          ≡ (if is_empty handle then err empty_handle else err duplicate_user))
      × ((create_user handle (create_user handle s).1).1.st ≡ (create_user handle s).1.st)
requests_again s from to handle =
    let (refused, same) = create_user_again s handle in
    (follow_again s from to, unfollow_again s from to, refused, same)
