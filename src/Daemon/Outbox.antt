-- ===== src/Daemon/Outbox.antt =====
-- What `recoverOutbox` leaves in the store: no send that a crash interrupted stays unresolved.
use codex_hooks.Base.{
  any, Outcome-cases, String, Bool, true, false, ◌≡◌, refl, Option, none, some, List, [], ◌∷◌, inl,
  inr, Bool-cases, Option-cases, eq_refl, ◌==◌, if◌then◌else◌, keep, arith, subst,
}
use codex_hooks.Base.Dict.{Dict, lookup, values, lookup-put}
use codex_hooks.Protocol.Names.{DeliveryState}
use codex_hooks.Daemon.Record.{IntentRecord, is_unresolved}
use codex_hooks.Daemon.World.{World, Port, primitives}
use codex_hooks.Daemon.Recovery.{recover_one, recover_all, recover_outbox}

-- Each stored record is kept under the id of its intent.
pub record IsKeyed {E : Type 0} (w : World E) : Type 0 where
  pub keyed :
      (key : String) (r : IntentRecord)
      → lookup key w.store.intents ≡ some r
      → r.intent.intent_id ≡ key

abbrev has_id : String → IntentRecord → Bool
has_id key r = r.intent.intent_id == key

-- A stored record, if there is one, that no longer waits for its send.
abbrev IsResolved : Option IntentRecord → Type 0
IsResolved none = Unit
IsResolved (some r) = is_unresolved r.state ≡ false

any-keep-values :
    (q p : IntentRecord → Bool) (d : Dict IntentRecord) (key : String) (r : IntentRecord)
    → lookup key d ≡ some r
    → p r ≡ true
    → any q (keep p (values d)) ≡ false
    → q r ≡ false
unfolding lookup
any-keep-values q p [] key r found chosen never = cc
any-keep-values q p ((j, v) ∷ d) key r found chosen never = elim (Bool-cases (j == key)) [
  | inl e ↦ let same : some v ≡ some r = rw e at found in let at_v : v ≡ r = cc in ground arith
  | inr e ↦
      let rest : lookup key d ≡ some r = rw e at found in
      elim (Bool-cases (p v)) [
        | inl c ↦ ground (arith, any-keep-values q p d key r rest chosen)
        | inr c ↦ any-keep-values q p d key r rest chosen (rw c at never)
      ]
]

module _ {E : Type 0} (port : Port E) where
  recover_one-lookup :
      (r : IntentRecord) (key : String) (w : World E)
      → (stored : IntentRecord) × (stored.state ≡ DeliveryState.unknown_delivery)
        × (lookup key (recover_one port r w).1.store.intents
            ≡ (if has_id key r then some stored else lookup key w.store.intents))
  unfolding recover_one primitives
  recover_one-lookup r key w = (_, refl, lookup-put r.intent.intent_id key _ w.store.intents)

  recover_all-nil : (w : World E) → (recover_all port [] w).1 ≡ w
  unfolding recover_all primitives
  recover_all-nil w = refl

  recover_all-cons :
      (r : IntentRecord) (rs : List IntentRecord) (w : World E)
      → (recover_all port (r ∷ rs) w).1 ≡ (recover_all port rs (recover_one port r w).1).1
  unfolding recover_all recover_one primitives
  recover_all-cons r rs w = elim (Outcome-cases (recover_all port rs (recover_one port r w).1).0) [
    | inl (ds, e) ↦ rw e refl
    | inr (fault, e) ↦ rw e refl
  ]

  module _ (key : String) where
    recover_one-IsResolved :
        (r : IntentRecord) (w : World E)
        → IsResolved (lookup key w.store.intents)
        → IsResolved (lookup key (recover_one port r w).1.store.intents)
    recover_one-IsResolved r w h =
        let (stored, at_unknown, e) = recover_one-lookup r key w in
        elim (Bool-cases (has_id key r)) [
          | inl b ↦ rw (e, b, at_unknown) refl
          | inr b ↦ rw (e, b) h
        ]

    recover_one-IsResolved_self :
        (r : IntentRecord) (w : World E)
        → has_id key r ≡ true
        → IsResolved (lookup key (recover_one port r w).1.store.intents)
    recover_one-IsResolved_self r w b =
        let (stored, at_unknown, e) = recover_one-lookup r key w in rw (e, b, at_unknown) refl

    recover_all-IsResolved :
        (rs : List IntentRecord) (w : World E)
        → IsResolved (lookup key w.store.intents)
        → IsResolved (lookup key (recover_all port rs w).1.store.intents)
    recover_all-IsResolved [] w h = rw (recover_all-nil w) h
    recover_all-IsResolved (r ∷ rs) w h =
        rw (recover_all-cons r rs w)
          (recover_all-IsResolved rs (recover_one port r w).1 (recover_one-IsResolved r w h))

    -- A listed id is resolved at the end, and any other keeps its record.
    recover_all-listed :
        (rs : List IntentRecord) (w : World E)
        → any (has_id key) rs ≡ true
        → IsResolved (lookup key (recover_all port rs w).1.store.intents)
    recover_all-listed [] w listed = cc
    recover_all-listed (r ∷ rs) w listed =
        rw (recover_all-cons r rs w) (elim (Bool-cases (has_id key r)) [
          | inl b ↦
              recover_all-IsResolved rs (recover_one port r w).1 (recover_one-IsResolved_self r w b)
          | inr b ↦ recover_all-listed rs (recover_one port r w).1 (rw b at listed)
        ])

    recover_all-unlisted :
        (rs : List IntentRecord) (w : World E)
        → any (has_id key) rs ≡ false
        → lookup key (recover_all port rs w).1.store.intents ≡ lookup key w.store.intents
    recover_all-unlisted [] w unlisted = rw (recover_all-nil w) refl
    recover_all-unlisted (r ∷ rs) w unlisted =
        let (stored, at_unknown, e) = recover_one-lookup r key w in
        elim (Bool-cases (has_id key r)) [
          | inl b ↦ let clash = rw b at unlisted in cc
          | inr b ↦
              let same = recover_all-unlisted rs (recover_one port r w).1 (rw b at unlisted) in
              rw (recover_all-cons r rs w, same, e, b) refl
        ]

  recover_outbox-store :
      (w : World E)
      → (recover_outbox port w).1
        ≡ (recover_all port
            (keep (λ (r : IntentRecord). is_unresolved r.state) (values w.store.intents))
            w).1
  unfolding recover_outbox primitives
  recover_outbox-store w = refl

  -- After a recovery of a store that keeps each record under the id of its intent, no record
  -- says that its send is still under way.
  pub recover_outbox-resolves :
      (w : World E)
      → IsKeyed w
      → (key : String) (r : IntentRecord)
      → lookup key (recover_outbox port w).1.store.intents ≡ some r
      → is_unresolved r.state ≡ false
  recover_outbox-resolves w keyed key r found =
      subst IsResolved (rw (recover_outbox-store w) at found)
        (elim (Bool-cases (any (has_id key) pending)) [
          | inl listed ↦ recover_all-listed key pending w listed
          | inr unlisted ↦
              let same = recover_all-unlisted key pending w unlisted in
              rw same (elim (Option-cases (lookup key w.store.intents)) [
                | inl e ↦ rw e tt
                | inr (kept, e) ↦ rw e (elim (Bool-cases (is_unresolved kept.state)) [
                  | inr settled ↦ settled
                  | inl waits ↦
                      let other =
                        any-keep-values (has_id key) (λ (x : IntentRecord). is_unresolved x.state)
                          w.store.intents key kept e waits unlisted in
                      let own : has_id key kept ≡ true =
                        rw (keyed.keyed key kept e) (eq_refl key) in
                      cc
                ])
              ])
        ])
    where
      pending : List IntentRecord
      pending = keep (λ (x : IntentRecord). is_unresolved x.state) (values w.store.intents)
