-- ===== src/Binding/Insort/Invariant.antt =====
-- The order of the guest and host lists through the insertions of
-- core/proot/src/main/cpp/path/binding.c.
use re_terminal.Prelude.{
  ℕ, ◌≡◌, ◌≢◌, refl, sym, subst, inl, inr, false, Option, none, some, List, [], ◌∷◌, arith, length,
  All, not,
}
use re_terminal.Path.{Bytes}
use re_terminal.Path.Compare.{compare_paths}
use re_terminal.Path.Compare.Relation.{NoNul}
use re_terminal.Binding.{
  Binding, Bindings, Side, guest_side, host_side, pending_side, side_path, head_of, with_head,
  is_equal,
}
use re_terminal.Binding.Insort.{
  remove, replaces, between, first_id, find_place, put_at, insort_binding, insort_binding2,
  insort_binding3,
}
use re_terminal.Binding.Insort.Ordered.{IsCached, OtherId, IsOrdered, remove-IsOrdered, All-remove}
use re_terminal.Binding.Insort.Placement.{
  placed, inserted, inserted-placed, find_place-between, NotReplaced,
}
use re_terminal.Binding.Insort.Placement.Keeps.{placed-IsOrdered}
use re_terminal.Binding.Insort.Placement.Replaces.{Replaces-or_not, replaced, replaced-IsOrdered}

-- Both lists that paths are translated by are in order.
pub record IsValid (b : Bindings) : Type 0 where
  pub guest : IsOrdered guest_side b.guest
  pub host : IsOrdered host_side b.host

-- A new binding: its strings are cached, and its address is in neither list.
pub record IsNew (binding : Binding) (b : Bindings) : Type 0 where
  pub cached_guest : IsCached binding.guest
  pub cached_host : IsCached binding.host
  pub fresh_guest : All (OtherId binding) b.guest
  pub fresh_host : All (OtherId binding) b.host

-- The list of the side itself.
put_at-inserted :
    (binding : Binding) (b : Bindings) (previous next : Option ℕ) (side : Side)
    → head_of (put_at side binding b (between previous next)) side
      ≡ inserted side binding (head_of b side) (between previous next)
unfolding put_at head_of with_head inserted
put_at-inserted binding b (some p) next guest_side = refl
put_at-inserted binding b (some p) next host_side = refl
put_at-inserted binding b (some p) next pending_side = refl
put_at-inserted binding b none (some n) guest_side = refl
put_at-inserted binding b none (some n) host_side = refl
put_at-inserted binding b none (some n) pending_side = refl
put_at-inserted binding b none none guest_side = refl
put_at-inserted binding b none none host_side = refl
put_at-inserted binding b none none pending_side = refl

module _ (x : Binding) (b : Bindings) (v : IsValid b) (new : IsNew x b) where
  guest_between :
      (p n : Option ℕ)
      → find_place guest_side x none (first_id b.guest) b.guest ≡ between p n
      → inserted guest_side x b.guest (find_place guest_side x none (first_id b.guest) b.guest)
        ≡ placed guest_side x b.guest
      → (head_of (insort_binding guest_side x b) guest_side ≡ placed guest_side x b.guest)
        × (head_of (insort_binding guest_side x b) host_side ≡ b.host)
  unfolding insort_binding inserted
  guest_between (some p) n e i = ground arith
  guest_between none (some n) e i = ground arith
  guest_between none none e i = ground arith

  guest_replaces :
      (id : ℕ)
      → find_place guest_side x none (first_id b.guest) b.guest ≡ replaces id
      → (head_of (insort_binding guest_side x b) guest_side ≡ replaced guest_side x id b.guest)
        × (head_of (insort_binding guest_side x b) host_side ≡ remove id b.host)
  unfolding insort_binding
  guest_replaces id e = ground arith

  -- After the insertion by guest path.
  record Between (c : Bindings) : Type 0 where
    guest_ordered : IsOrdered guest_side c.guest
    host_ordered : IsOrdered host_side c.host
    host_fresh : All (OtherId x) c.host

  guest_step : Between (insort_binding guest_side x b)
  unfolding head_of side_path
  guest_step = elim (Replaces-or_not guest_side x b.guest v.guest.distinct) [
    | inl all ↦
        let (p, n, e) = find_place-between guest_side x b.guest all in
        let (g, h) =
          guest_between p n e (inserted-placed guest_side x b.guest v.guest.distinct all) in
        record {
          guest_ordered =
              subst (IsOrdered guest_side) (sym g)
                (placed-IsOrdered guest_side x new.cached_guest b.guest new.fresh_guest v.guest);
          host_ordered = subst (IsOrdered host_side) (sym h) v.host;
          host_fresh = subst (All (OtherId x)) (sym h) new.fresh_host;
        }
    | inr r ↦
        let (g, h) = guest_replaces r.id (r.found none (first_id b.guest)) in
        record {
          guest_ordered = subst (IsOrdered guest_side) (sym g) (
              replaced-IsOrdered guest_side x r.id b.guest new.cached_guest r.same_path
                new.fresh_guest v.guest);
          host_ordered =
              subst (IsOrdered host_side) (sym h) (remove-IsOrdered host_side r.id b.host v.host);
          host_fresh =
              subst (All (OtherId x)) (sym h) (All-remove (OtherId x) r.id b.host new.fresh_host);
        }
  ]

module _ (x : Binding) where
  -- By host path nothing is replaced.
  none_replaced : (l : List Binding) → All (NotReplaced host_side x) l
  none_replaced [] = tt
  none_replaced (y ∷ ys) = (inl refl, none_replaced ys)

  host_between :
      (b : Bindings) (p n : Option ℕ)
      → find_place host_side x none (first_id b.host) b.host ≡ between p n
      → inserted host_side x b.host (find_place host_side x none (first_id b.host) b.host)
        ≡ placed host_side x b.host
      → insort_binding host_side x b ≡ record b { host = placed host_side x b.host }
  unfolding insort_binding inserted
  host_between b (some p) n e i = ground arith
  host_between b none (some n) e i = ground arith
  host_between b none none e i = ground arith

  host_step :
      (b : Bindings)
      → IsOrdered guest_side b.guest
      → IsOrdered host_side b.host
      → IsCached x.host
      → All (OtherId x) b.host
      → IsValid (insort_binding host_side x b)
  unfolding side_path
  host_step b g h c f =
      let (p, n, e) = find_place-between host_side x b.host (none_replaced b.host) in
      let placed_eq =
        host_between b p n e
          (inserted-placed host_side x b.host h.distinct (none_replaced b.host)) in
      subst IsValid (sym placed_eq)
        (record { guest = g; host = placed-IsOrdered host_side x c b.host f h })

-- For bindings whose guest and host lists are in order and a new binding, with cached C strings
-- that are not empty and an address in neither list, insort_binding2 leaves both lists in order:
-- no binding stands before one whose directory it contains, and no address occurs twice.
pub insort_binding2-IsValid :
    (x : Binding) (b : Bindings) → IsValid b → IsNew x b → IsValid (insort_binding2 x b)
unfolding insort_binding2 head_of
insort_binding2-IsValid x b v new =
    let linked = record x {
      need_substitution = not (is_equal (compare_paths x.host.path x.guest.path));
    } in
    let fresh : IsNew linked b = record {
      cached_guest = new.cached_guest;
      cached_host = new.cached_host;
      fresh_guest = new.fresh_guest;
      fresh_host = new.fresh_host;
    } in
    let step = guest_step linked b v fresh in
    host_step linked (insort_binding guest_side linked b) step.guest_ordered step.host_ordered
      new.cached_host step.host_fresh

-- For bindings whose lists are in order, two C strings that are not empty and an address in
-- neither list, insort_binding3 leaves both lists in order.
pub insort_binding3-IsValid :
    (id : ℕ) (host_path guest_path : Bytes) (b : Bindings)
    → IsValid b
    → NoNul host_path
    → host_path ≢ []
    → NoNul guest_path
    → guest_path ≢ []
    → All (λ y. y.id ≢ id) b.guest
    → All (λ y. y.id ≢ id) b.host
    → IsValid (insort_binding3 id host_path guest_path b)
unfolding insort_binding3
insort_binding3-IsValid id host_path guest_path b v hn he gn ge fg fh =
    let binding : Binding = record {
      id = id;
      host = record { path = host_path; len = length host_path };
      guest = record { path = guest_path; len = length guest_path };
      need_substitution = false;
    } in
    insort_binding2-IsValid binding b v (record {
      cached_guest = record { length_cached = refl; no_nul = gn; not_empty = ge };
      cached_host = record { length_cached = refl; no_nul = hn; not_empty = he };
      fresh_guest = fg;
      fresh_host = fh;
    })
