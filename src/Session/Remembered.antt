-- ===== src/Session/Remembered.antt =====
-- store.py and stage.py: the calls of the store between the input and the output path of a session.
use dlp_server.Base.{
  sym, Bool-cases, ◌≡◌, ◌≢◌, ◌⊎◌, Bool, refl, ap, subst, true, false, not, Option, none, some, List,
  [], ◌∷◌, filter, All, arith, inl, inr,
}
use dlp_server.Base.Str.{Str, str, eq, eq_iff, eq_sound, lookup, lookup-insert, lookup-erase}
use dlp_server.Base.Float.{Float}
use dlp_server.Models.{Context}
use dlp_server.Session.Store.{
  SessionState, SessionStore, is_expired, load, save, new_session, expires, sweep_once,
}
use dlp_server.Session.Stage.{open_session, remember_purpose_stage, get_last_purpose}
use dlp_server.Session.Store.{delete}
use dlp_server.Session.Expiry.{load_live, lookup-save}

-- a call of a method of the store
pub data Act (F : Type 0) : Type 0 where
  loads : F → Str → Act F
  saves : SessionState F → Act F
  deletes : Str → Act F
  sweeps : F → Act F

module _ {F : Type 0} ⦃fl : Float F⦄ where
  -- the store after a call, and after several
  abbrev pub after_act : Act F → SessionStore F → SessionStore F
  after_act (loads now k) store = (load now k store).2
  after_act (saves state) store = save state store
  after_act (deletes k) store = (delete k store).1
  after_act (sweeps now) store = (sweep_once now store).1

  abbrev pub after_acts : List (Act F) → SessionStore F → SessionStore F
  after_acts [] store = store
  after_acts (a ∷ rest) store = after_acts rest (after_act a store)

  -- a call that leaves the session `k` alone: it is about another session, or it is a load or a
  -- sweep at a time when the session has not expired
  abbrev pub Spares : Str → SessionState F → Act F → Type 0
  Spares k state (loads now j) = (j ≢ k) ⊎ (is_expired state now ≡ false)
  Spares k state (saves other) = other.session_id ≢ k
  Spares k state (deletes j) = j ≢ k
  Spares k state (sweeps now) = is_expired state now ≡ false

  lookup-filter :
      (p : Str × SessionState F → Bool) (k : Str) (state : SessionState F)
      (d : List (Str × SessionState F))
      → ((j : Str) → p (j, state) ≡ true)
      → lookup k d ≡ some state
      → lookup k (filter p d) ≡ some state
  unfolding lookup
  lookup-filter p k state [] kept h = h
  lookup-filter p k state ((j, v) ∷ d) kept h = elim (Bool-cases (eq j k)) [
    | inl e ↦
        let own : v ≡ state = ground (arith, e, h) in
        let stays : p (j, v) ≡ true = rw own (kept j) in rw (stays, e) (ap some own)
    | inr e ↦
        let rest = lookup-filter p k state d kept (ground (arith, e, h)) in
        elim (Bool-cases (p (j, v))) [ inl t ↦ rw (t, e) rest | inr t ↦ rw t rest ]
  ]

  Spares-kept :
      (k : Str) (state : SessionState F) (a : Act F) (store : SessionStore F)
      → Spares k state a
      → lookup k store.states ≡ some state
      → lookup k (after_act a store).states ≡ some state
  unfolding load save delete sweep_once
  Spares-kept k state (loads now j) store (inl apart) h =
      ground (arith, h, apart, eq_iff j k, lookup-erase j k store.states)
  Spares-kept k state (loads now j) store (inr live) h = elim (Bool-cases (eq j k)) [
    | inl e ↦
        let own = eq_sound j k e in
        subst (λ z. lookup k (load now z store).2.states ≡ some state) (sym own)
          (rw (ap (λ r. r.2.states) (load_live now k state store h live)) h)
    | inr e ↦ ground (arith, h, e, lookup-erase j k store.states)
  ]
  Spares-kept k state (saves other) store apart h = ground (
    arith,
    h,
    apart,
    eq_iff other.session_id k,
    lookup-insert other.session_id k other store.states,
  )
  Spares-kept k state (deletes j) store apart h =
      ground (arith, h, apart, eq_iff j k, lookup-erase j k store.states)
  Spares-kept k state (sweeps now) store live h =
      lookup-filter (λ p. not (expires now p)) k state store.states (λ j. rw live refl) h

  all_spared :
      (k : Str) (state : SessionState F) (acts : List (Act F)) (store : SessionStore F)
      → All (Spares k state) acts
      → lookup k store.states ≡ some state
      → lookup k (after_acts acts store).states ≡ some state
  all_spared k state [] store s h = h
  all_spared k state (a ∷ rest) store s h =
      all_spared k state rest (after_act a store) s.1 (Spares-kept k state a store s.0 h)

  -- an entry stands under its own name
  abbrev pub IsKeyed : SessionStore F → Type 0
  IsKeyed store = All (λ p. p.1.session_id ≡ p.0) store.states

  lookup_keyed :
      (k : Str) (d : List (Str × SessionState F)) (state : SessionState F)
      → All (λ p. p.1.session_id ≡ p.0) d
      → lookup k d ≡ some state
      → state.session_id ≡ k
  unfolding lookup
  lookup_keyed k [] state h e = cc
  lookup_keyed k ((j, w) ∷ d) state h e =
      ground (arith, eq_iff j k, h.0, lookup_keyed k d state h.1)

  open_session_named :
      (now : F) (k : Str) (store : SessionStore F) (found : Option (SessionState F))
      → lookup k store.states ≡ found
      → All (λ p. p.1.session_id ≡ p.0) store.states
      → (open_session now k store).0.session_id ≡ k
  unfolding open_session load new_session
  open_session_named now k store none e h = ground (arith, e)
  open_session_named now k store (some state) e h =
      let own = lookup_keyed k store.states state h e in ground (arith, e, own)

  open_session_keyed :
      (now : F) (k : Str) (store : SessionStore F)
      → IsKeyed store
      → (open_session now k store).0.session_id ≡ k
  open_session_keyed now k store h = open_session_named now k store (lookup k store.states) refl h

  remember_saves :
      (now : F) (ctx : Context F) (store : SessionStore F) (purpose : Str)
      → ctx.direction ≡ str "input"
      → ctx.purpose ≡ some purpose
      → (remember_purpose_stage now ctx store).2 ≡ (
          let (state, expired, store') = open_session now ctx.session_id store in
          save (record state { purpose = some purpose }) store')
  unfolding remember_purpose_stage save eq
  remember_saves now ctx store purpose d p = rw (p, d) refl

  purpose_read :
      (later : F) (k : Str) (state : SessionState F) (store : SessionStore F)
      → load later k store ≡ (some state, none, store)
      → (get_last_purpose later k store).0 ≡ state.purpose
  unfolding get_last_purpose
  purpose_read later k state store e = ground (arith, e)

  -- The purpose that the input path remembers for a session is what the output path reads, if
  -- the session has not expired then, and if the calls of the store in between are about other
  -- sessions, or load or sweep at times when the session has not expired; in the store as it was
  -- before, each entry stands under its own name.
  pub get_last_purpose-remember :
      (now later : F) (ctx : Context F) (store : SessionStore F) (purpose : Str)
      (acts : List (Act F))
      → IsKeyed store
      → ctx.direction ≡ str "input"
      → ctx.purpose ≡ some purpose
      → let state = record (open_session now ctx.session_id store).0 { purpose = some purpose } in
        All (Spares ctx.session_id state) acts
        → is_expired state later ≡ false
        → (get_last_purpose later ctx.session_id
            (after_acts acts (remember_purpose_stage now ctx store).2)).0
          ≡ some purpose
  get_last_purpose-remember now later ctx store purpose acts keyed d p spared live =
      let (state, expired, store') = open_session now ctx.session_id store in
      let state' = record state { purpose = some purpose } in
      let own = open_session_keyed now ctx.session_id store keyed in
      let saved = save state' store' in
      let there =
        subst (λ k. lookup k saved.states ≡ some state') own (lookup-save state' store') in
      let left = after_acts acts saved in
      rw (remember_saves now ctx store purpose d p) (
        purpose_read later ctx.session_id state' left (
          load_live later ctx.session_id state' left
            (all_spared ctx.session_id state' acts saved spared there) live))
