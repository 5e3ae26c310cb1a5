-- ===== src/Proxy/Change/Kept.antt =====
-- What the changes of a proxy keep (internal/resources/hashrate/proxy/proxy.go): its map within its
-- limit, and the connections that the map holds.
use proxy_router.Prelude.{
  ℕ, suc, ◌≤◌, ◌<◌, ◌≡◌, refl, String, [], ◌∷◌, arith, ap, sym, subst, ◌∙◌, ==_iff, inl, inr,
  length, leb, ◌==◌, string_eq, Bool-cases,
}
use proxy_router.Prelude.Options.{Returns, Returns-map}
use proxy_router.Prelude.Assoc.{Assoc}
use proxy_router.Proxy.Dest.{ConnDest}
use proxy_router.Proxy.Change.{
  Proxy, oldest_of, close_oldest_conn, at_conn, forget, close_conn, make_room,
}
use proxy_router.Proxy.Change.Keyed.{
  Keyed, Keyed-delete, Keyed-conns, oldest-Held, length-delete-lt, length-delete-le,
}

-- The map is well kept and within its limit, which is at least one.
pub record Sound {F H K : Type 0} (p : Proxy F H K) : Type 0 where
  pub keyed : Keyed p.conns p.next p.dest_map
  pub bounded : length p.dest_map ≤ p.max_cached_dests
  pub some_room : 1 ≤ p.max_cached_dests
  pub in_store : p.dest < p.next

-- What neither the map nor a flag of a connection has to do with.
pub record Alike {F H K : Type 0} (p q : Proxy F H K) : Type 0 where
  pub same_ids : (d : ℕ) → (q.conns d).id ≡ (p.conns d).id
  pub same_jobs : (d : ℕ) → (q.conns d).validator ≡ (p.conns d).validator
  pub same_next : q.next ≡ p.next
  pub same_dest : q.dest ≡ p.dest
  pub same_url : q.dest_url ≡ p.dest_url
  pub same_submit : q.on_submit ≡ p.on_submit
  pub same_limit : q.max_cached_dests ≡ p.max_cached_dests
  pub same_directions : q.directions ≡ p.directions

module _ {F H K : Type 0} where
  pub Alike-refl : (p : Proxy F H K) → Alike p p
  Alike-refl p = record {
    same_ids = λ d. refl;
    same_jobs = λ d. refl;
    same_next = refl;
    same_dest = refl;
    same_url = refl;
    same_submit = refl;
    same_limit = refl;
    same_directions = refl;
  }

  pub Alike-trans : (p q r : Proxy F H K) → Alike p q → Alike q r → Alike p r
  Alike-trans p q r a b = record {
    same_ids = λ d. b.same_ids d ∙ a.same_ids d;
    same_jobs = λ d. b.same_jobs d ∙ a.same_jobs d;
    same_next = b.same_next ∙ a.same_next;
    same_dest = b.same_dest ∙ a.same_dest;
    same_url = b.same_url ∙ a.same_url;
    same_submit = b.same_submit ∙ a.same_submit;
    same_limit = b.same_limit ∙ a.same_limit;
    same_directions = b.same_directions ∙ a.same_directions;
  }

  pub forget-Alike : (k : String) (p : Proxy F H K) → Alike p (forget k p)
  forget-Alike k p = record {
    same_ids = λ d. refl;
    same_jobs = λ d. refl;
    same_next = refl;
    same_dest = refl;
    same_url = refl;
    same_submit = refl;
    same_limit = refl;
    same_directions = refl;
  }

  pub forget-Sound : (k : String) (p : Proxy F H K) → Sound p → Sound (forget k p)
  forget-Sound k p s = record {
    keyed = Keyed-delete p.conns p.next k p.dest_map s.keyed;
    bounded = omega (arith, length-delete-le k p.dest_map, s.bounded);
    some_room = s.some_room;
    in_store = s.in_store;
  }

  at_conn-id :
      (d i : ℕ) (f : ConnDest F H → ConnDest F H) (p : Proxy F H K)
      → (f (p.conns d)).id ≡ (p.conns d).id
      → ((at_conn d f p).conns i).id ≡ (p.conns i).id
  at_conn-id d i f p e = elim (Bool-cases (i == d)) [
    | inl same ↦ rw same (e ∙ ap (λ x. (p.conns x).id) (sym ((==_iff i d).0 same)))
    | inr other ↦ rw other refl
  ]

  at_conn-validator :
      (d i : ℕ) (f : ConnDest F H → ConnDest F H) (p : Proxy F H K)
      → (f (p.conns d)).validator ≡ (p.conns d).validator
      → ((at_conn d f p).conns i).validator ≡ (p.conns i).validator
  at_conn-validator d i f p e = elim (Bool-cases (i == d)) [
    | inl same ↦ rw same (e ∙ ap (λ x. (p.conns x).validator) (sym ((==_iff i d).0 same)))
    | inr other ↦ rw other refl
  ]

  pub at_conn-Alike :
      (d : ℕ) (f : ConnDest F H → ConnDest F H) (p : Proxy F H K)
      → (f (p.conns d)).id ≡ (p.conns d).id
      → (f (p.conns d)).validator ≡ (p.conns d).validator
      → Alike p (at_conn d f p)
  at_conn-Alike d f p e v = record {
    same_ids = λ i. at_conn-id d i f p e;
    same_jobs = λ i. at_conn-validator d i f p v;
    same_next = refl;
    same_dest = refl;
    same_url = refl;
    same_submit = refl;
    same_limit = refl;
    same_directions = refl;
  }

  pub at_conn-Sound :
      (d : ℕ) (f : ConnDest F H → ConnDest F H) (p : Proxy F H K)
      → (f (p.conns d)).id ≡ (p.conns d).id
      → Sound p
      → Sound (at_conn d f p)
  at_conn-Sound d f p e s = record {
    keyed =
        Keyed-conns p.conns (at_conn d f p).conns p.next p.next p.dest_map
          (λ i l. at_conn-id d i f p e) (omega arith) s.keyed;
    bounded = s.bounded;
    some_room = s.some_room;
    in_store = s.in_store;
  }

  pub close_oldest-Sound :
      (m : Assoc String ℕ) (p : Proxy F H K)
      → p.dest_map ≡ m
      → 1 ≤ length m
      → Sound p
      → Returns
          (λ q. Sound q × Alike p q × (suc (length q.dest_map) ≤ length m))
          (close_oldest_conn m p)
  unfolding close_oldest_conn
  close_oldest-Sound [] p e l s = elim l [ ]
  close_oldest-Sound ((k, d) ∷ m) p e l s =
      let old : ℕ = oldest_of p.conns d m in
      (
        forget-Sound (p.conns old).id (at_conn old close_conn p)
            (at_conn-Sound old close_conn p refl s),
        Alike-trans p (at_conn old close_conn p) _ (at_conn-Alike old close_conn p refl refl)
            (forget-Alike (p.conns old).id (at_conn old close_conn p)),
        rw e (
            length-delete-lt p.conns p.next old ((k, d) ∷ m)
              (subst (Keyed p.conns p.next) e s.keyed) (oldest-Held p.conns d m)),
      )

  -- After `make_room` there is room for one more.
  pub make_room-Sound :
      (p : Proxy F H K)
      → Sound p
      → Returns
          (λ q. Sound q × Alike p q × (suc (length q.dest_map) ≤ p.max_cached_dests))
          (make_room p)
  unfolding make_room
  make_room-Sound p s = elim (Bool-cases (leb p.max_cached_dests (length p.dest_map))) [
    | inl full ↦ rw full (
        Returns-map _ (λ q. Sound q × Alike p q × (suc (length q.dest_map) ≤ p.max_cached_dests)) _
          (close_oldest-Sound p.dest_map p refl (ground (arith, full, s)) s)
          (λ q r. (r.0, r.1, omega (arith, r.2, s.bounded))))
    | inr room ↦ rw room (s, Alike-refl p, ground (arith, room))
  ]
