-- ===== src/Session/Expiry.antt =====
-- store.py: loads, saves and sweeps, and the expiry of sessions.
use dlp_server.Base.{
  ◌≡◌, refl, ap, true, false, not, none, some, List, [], ◌∷◌, filter, All, map, arith, inl, inr,
  Member, Member-filter, Member-filter_of, Member-map, All-map, all-Member,
}
use dlp_server.Base.Str.{Str, eq_refl, lookup, erase, lookup-insert, lookup-erase}
use dlp_server.Base.Float.{Float}
use dlp_server.Session.Store.{
  SessionState, SessionStore, is_expired, load, save, expires, sweep_once,
}

module _ {ℓ κ} {A : Type ℓ} where
  member_all_of : (P : A → Type κ) (xs : List A) → ((x : A) → Member x xs → P x) → All P xs
  member_all_of P [] f = tt
  member_all_of P (x ∷ xs) f = (f x (inl refl), member_all_of P xs (λ z m. f z (inr m)))

module _ {ℓ κ μ} {A : Type ℓ} {B : Type κ} where
  All-map_of_member :
      (P : B → Type μ) (g : A → B) (xs : List A)
      → ((x : A) → Member x xs → P (g x))
      → All P (map g xs)
  All-map_of_member P g [] f = tt
  All-map_of_member P g (x ∷ xs) f = (f x (inl refl), All-map_of_member P g xs (λ z m. f z (inr m)))

module _ {F : Type 0} ⦃fl : Float F⦄ where
  load-none :
      (now : F) (k : Str) (store : SessionStore F)
      → lookup k store.states ≡ none
      → load now k store ≡ (none, none, store)
  unfolding load
  load-none now k store e = ground (arith, e)

  pub load_live :
      (now : F) (k : Str) (state : SessionState F) (store : SessionStore F)
      → lookup k store.states ≡ some state
      → is_expired state now ≡ false
      → load now k store ≡ (some state, none, store)
  unfolding load
  load_live now k state store e h = ground (arith, e, h)

  load_dead :
      (now : F) (k : Str) (state : SessionState F) (store : SessionStore F)
      → lookup k store.states ≡ some state
      → is_expired state now ≡ true
      → load now k store ≡ (none, some state, record store { states = erase k store.states })
  unfolding load
  load_dead now k state store e h = ground (arith, e, h)

  pub lookup-save :
      (state : SessionState F) (store : SessionStore F)
      → lookup state.session_id (save state store).states ≡ some state
  unfolding save
  lookup-save state store = ground (
    arith,
    lookup-insert state.session_id state.session_id state store.states,
    eq_refl state.session_id,
  )

  lookup-erase_self : (k : Str) (d : List (Str × SessionState F)) → lookup k (erase k d) ≡ none
  lookup-erase_self k d = ground (arith, lookup-erase k k d, eq_refl k)

  -- After a save of a session, a load at any time gives that state if it is not expired then;
  -- if it is, the load gives nothing, hands the state to the expiry hook and removes it, so that
  -- a second load, at any time, gives nothing and calls no hook.
  pub load-save :
      (now later : F) (state : SessionState F) (store : SessionStore F)
      → (is_expired state now ≡ false
          → load now state.session_id (save state store) ≡ (some state, none, save state store))
        × (is_expired state now ≡ true
            → let (found, expired, store') = load now state.session_id (save state store) in
              (found ≡ none)
              × (expired ≡ some state)
              × (load later state.session_id store' ≡ (none, none, store')))
  load-save now later state store =
      let k = state.session_id in
      let s = save state store in
      let e = lookup-save state store in
      (
        load_live now k state s e,
        λ h. rw (load_dead now k state s e h) (
          refl,
          refl,
          load-none later k (record s { states = erase k s.states }) (lookup-erase_self k s.states),
        ),
      )

  live_test :
      (now : F) (p : Str × SessionState F) → not (expires now p) ≡ true → is_expired p.1 now ≡ false
  live_test now p h = ground arith

  -- After a sweep no session in the store is expired at the time of the sweep, every session that
  -- was is handed to the expiry hook, none of those handed over was live, and every session that
  -- was live is still in the store.
  pub sweep_once_exact :
      (now : F) (store : SessionStore F)
      → let (expired, store') = sweep_once now store in
        All (λ p. is_expired p.1 now ≡ false) store'.states
        × All (λ state. is_expired state now ≡ true) expired
        × All (λ p. is_expired p.1 now ≡ true → Member p.1 expired) store.states
        × All (λ p. is_expired p.1 now ≡ false → Member p store'.states) store.states
  unfolding sweep_once
  sweep_once_exact now store =
      let states = store.states in
      (
        All-map
            (λ p (m : Member p (filter (λ q. not (expires now q)) states)).
              live_test now p (Member-filter (λ q. not (expires now q)) p states m).1)
            (filter (λ q. not (expires now q)) states)
            (all-Member (filter (λ q. not (expires now q)) states)),
        All-map_of_member (λ s. is_expired s now ≡ true) (λ q. q.1) (filter (expires now) states)
            (λ p m. (Member-filter (expires now) p states m).1),
        member_all_of _ states (λ p m h.
            Member-map (λ q. q.1) p (filter (expires now) states)
              (Member-filter_of (expires now) p states m h)),
        member_all_of _ states
            (λ p m h. Member-filter_of (λ q. not (expires now q)) p states m (ap not h)),
      )
