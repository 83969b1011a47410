-- ===== src/Audit/Newest.antt =====
-- app/api.py: which rows /events shows.
use dlp_server.Base.{
  ℕ, ◌≤◌, ltb, ◌≡◌, ◌↔◌, ◌⊎◌, inl, inr, true, false, Option, some, List, [], ◌++◌, map, filter,
  drop, length, All, Member, Member-filter, Member-filter_of, arith, Bool-cases,
}
use dlp_server.Base.Str.{Str}
use dlp_server.Base.Sort.{sort, IsSorted, sort-IsSorted}
use dlp_server.Base.Cut.{Member-sort, take-IsSorted, take-drop, length-take}
use dlp_server.Audit.Event.{Row, Event, serialize_event}
use dlp_server.Audit.Query.{
  returns, events_limit_max, min, Clock, Condition, all_hold, newer_first, fetch_events,
}
use dlp_server.Audit.Routes.{conditions, events}
use dlp_server.Audit.Meets.{bind-returns, Meets, conditions-Meets}

module _ {F : Type 0} where
  newer_total : (a b : Row F) → newer_first a b ≡ false → newer_first b a ≡ true
  unfolding newer_first
  newer_total a b h = ground arith

  newer_trans :
      (a b c : Row F) → newer_first a b ≡ true → newer_first b c ≡ true → newer_first a c ≡ true
  unfolding newer_first
  newer_trans a b c h k = ground arith

  -- the rows of a query with a limit, and the rest
  fetch_events-Newest :
      (where_ : List Condition) (n : ℕ) (table : List (Row F))
      → let rows = fetch_events where_ newer_first (some n) table in
        (rest : List (Row F)) × ((r : Row F)
          → Member r (rows ++ rest) ↔ (Member r table × (all_hold where_ r ≡ true)))
        × IsSorted newer_first rows
        × All (λ r. All (λ q. newer_first r q ≡ true) rest) rows
        × (length rows ≤ n)
        × ((rest ≡ []) ⊎ (length rows ≡ n))
  unfolding fetch_events
  fetch_events-Newest where_ n table =
      let sorted = sort newer_first (filter (all_hold where_) table) in
      let (s, t) =
        take-IsSorted newer_first n sorted
          (sort-IsSorted newer_first newer_total newer_trans (filter (all_hold where_) table)) in
      let (l, e) = length-take n sorted in
      (
        drop n sorted,
        λ r. rw (take-drop n sorted) (
            let (f, g) = Member-sort newer_first r (filter (all_hold where_) table) in
            (
              λ m. Member-filter (all_hold where_) r table (f m),
              λ m. g (Member-filter_of (all_hold where_) r table m.0 m.1),
            )),
        s,
        t,
        l,
        e,
      )

module _ {F : Type 0} (c : Clock) (table : List (Row F)) where
  -- What /events answers is serialized from rows in the order of the newest first, at most 500 and
  -- at most the limit. With the rows that it leaves out these are exactly the rows of the table
  -- with the direction, the verdict and the session that are asked for, and made no earlier than
  -- the time that is asked for, each as far as it is given; none that is left out is newer than one
  -- that is shown; and none is left out unless the bound is reached.
  pub events-Newest :
      (limit : ℕ) (direction verdict session_id since : Option Str) (out : List (Event F))
      → events c table limit direction verdict session_id since ≡ returns out
      → (rows : List (Row F)) × (rest : List (Row F)) × (out
          ≡ map (λ r. serialize_event c.kst_iso r false) rows)
        × ((r : Row F)
            → Member r (rows ++ rest)
              ↔ (Member r table × Meets c direction verdict session_id since r))
        × IsSorted newer_first rows
        × All (λ r. All (λ q. newer_first r q ≡ true) rest) rows
        × (length rows ≤ min limit 500)
        × ((rest ≡ []) ⊎ (length rows ≡ min limit 500))
  unfolding events events_limit_max
  events-Newest limit direction verdict session_id since out h = elim (Bool-cases (ltb limit 1)) [
    | inl t ↦ absurd (cc (rw t at h))
    | inr f ↦
        let (where_, e, q) =
          bind-returns (conditions c direction verdict session_id since) _ (rw f at h) in
        let n : ℕ = min limit 500 in
        let (rest, m, s, a, l, r) = fetch_events-Newest where_ n table in
        (
          fetch_events where_ newer_first (some n) table,
          rest,
          cc,
          λ x.
              let (g, k) = m x in
              let (g', k') = conditions-Meets c direction verdict session_id since where_ x e in
              ((λ y. let (u, v) = g y in (u, g' v)), (λ y. k (y.0, k' y.1))),
          s,
          a,
          l,
          r,
        )
  ]
