-- ===== src/Config/Accepted.antt =====
-- What holds of a configuration and an address that are accepted.
use codex_hooks.Base.{
  ℕ, suc, ◌≤◌, String, true, false, not, ◌≡◌, refl, List, [], ◌∷◌, ◌&&◌, member, or_else, arith,
  Outcome, ok, throws, Gives, Gives-any, Gives-bind, Gives-ok, Gives-require, Gives-eq, Bool-cases,
  inl, inr, leb,
}
use codex_hooks.Protocol.Value.{Value, Items, get, text?}
use codex_hooks.Config.Endpoint.{Endpoint, loopback_hosts, normalize_loopback_host}
use codex_hooks.Config.Validate.{
  boolean_of, assert_object, assert_string, assert_keys, integer_between, validate_runtime,
  validate_codexapp, when_defined, items_of, ignore,
}
use codex_hooks.Config.Daemon.{
  validate_policy, validate_policies, validate_supervisor_config, validate_daemon_config,
}

-- A check whose result is not used still tells what holds of it.
ignore-Gives :
    {A : Type 0} {P : A → Type 0} {Q : Type 0} (m : Outcome A)
    → Gives P m
    → ((a : A) → P a → Q)
    → Gives (λ u. Q) (ignore m)
ignore-Gives (ok a) g h = Gives-ok (h a g.holds)
ignore-Gives (throws e) g h = record { holds = tt }

-- `value` is a number from `low` to `high`.
abbrev pub IsBetween : ℕ → ℕ → Value → Type 0
IsBetween low high value = (n : ℕ) × (value ≡ Value.num n) × (low ≤ n) × (n ≤ high)

integer_between-Gives :
    (value : Value) (low high : ℕ) (message : String)
    → Gives (λ n. IsBetween low high value) (integer_between value low high message)
unfolding integer_between
integer_between-Gives (Value.num n) low high message = elim (Bool-cases (leb low n && leb n high)) [
  | inl e ↦ rw e (Gives-ok (n, refl, ground arith, ground arith))
  | inr e ↦ rw e (record { holds = tt })
]
integer_between-Gives value low high message = record { holds = tt }

normalize_loopback_host-Gives :
    (value label : String)
    → Gives (λ host. member value loopback_hosts ≡ true) (normalize_loopback_host value label)
unfolding normalize_loopback_host
normalize_loopback_host-Gives value label = elim (Bool-cases (member value loopback_hosts)) [
  | inl e ↦ rw e (Gives-ok refl)
  | inr e ↦ rw e (record { holds = tt })
]

-- The text of a value, or the empty one.
abbrev pub text_of : Value → String
text_of value = or_else (text? value) ""

-- The daemon listens on this machine only, at a port of 16 bits.
pub record IsLocal (runtime : Value) : Type 0 where
  pub is_loopback : member (text_of (get runtime "host")) loopback_hosts ≡ true
  pub has_port : IsBetween 0 65535 (get runtime "port")

validate_runtime-Gives :
    (runtime : Value) → Gives (λ port. IsLocal runtime) (validate_runtime runtime)
unfolding validate_runtime
validate_runtime-Gives runtime = Gives-any (assert_object runtime "runtime") (λ u.
    Gives-any (assert_keys runtime ("host" ∷ "port" ∷ "state_directory" ∷ []) "runtime" []) (λ u.
      Gives-any (assert_string (get runtime "host") "runtime.host") (λ u.
        Gives-bind _
          (ignore-Gives _
            (normalize_loopback_host-Gives (text_of (get runtime "host")) "runtime.host")
            (λ host loopback. loopback))
          (λ u loopback.
            Gives-bind _ (integer_between-Gives (get runtime "port") 0 65535 _) (λ port between.
              Gives-any (assert_string (get runtime "state_directory") "runtime.state_directory")
                (λ u. Gives-ok (record { is_loopback = loopback; has_port = between })))))))

-- No name twice.
abbrev pub IsUnique : List String → Type 0
IsUnique [] = Unit
IsUnique (name ∷ names) = (member name names ≡ false) × IsUnique names

-- The names of the policies, the last first, before those in `names`.
unfoldable pub policy_names : Items → List String → List String
policy_names Items.nil names = names
policy_names (Items.cons policy more) names =
    policy_names more (text_of (get policy "name") ∷ names)

validate_policy-Gives :
    (policy : Value) (index : ℕ) (names : List String)
    → Gives
        (λ name. (name ≡ text_of (get policy "name")) × (member name names ≡ false))
        (validate_policy policy index names)
unfolding validate_policy
validate_policy-Gives policy index names =
    let name = text_of (get policy "name") in
    Gives-any (assert_object policy _) (λ u.
      Gives-any (assert_keys policy ("name" ∷ "enabled" ∷ "config" ∷ []) _ []) (λ u.
        Gives-any (assert_string (get policy "name") _) (λ u.
          Gives-bind _ (Gives-require (not (member name names)) _) (λ u new.
            Gives-any (ignore (boolean_of (get policy "enabled") _)) (λ u.
              Gives-any (assert_object (get policy "config") _)
                (λ u. Gives-ok (refl, ground arith)))))))

validate_policies-Gives :
    (items : Items) (index : ℕ) (names : List String)
    → IsUnique names
    → Gives (λ all. IsUnique (policy_names items names)) (validate_policies items index names)
unfolding validate_policies policy_names
validate_policies-Gives Items.nil index names unique = Gives-ok unique
validate_policies-Gives (Items.cons policy more) index names unique =
    Gives-bind (validate_policy policy index names) (validate_policy-Gives policy index names)
      (λ name h. rw (← h.0) (validate_policies-Gives more (suc index) (name ∷ names) (h.1, unique)))

items_of-Gives :
    (value : Value) (message : String)
    → Gives (λ items. value ≡ Value.arr items) (items_of value message)
unfolding items_of
items_of-Gives (Value.arr items) message = Gives-ok refl
items_of-Gives value message = record { holds = tt }

-- What `validateDaemonConfig` lets through.
pub record IsAccepted (value : Value) : Type 0 where
  pub is_local : IsLocal (get value "runtime")
  pub policies : Items
  pub has_policies : get value "policies" ≡ Value.arr policies
  pub has_names : IsUnique (policy_names policies [])

validate_daemon_config-Gives :
    (value : Value) → Gives (λ w. (w ≡ value) × IsAccepted value) (validate_daemon_config value)
unfolding validate_daemon_config
validate_daemon_config-Gives value = Gives-any (assert_object value "daemon config") (λ u.
    Gives-any
      (assert_keys value ("runtime" ∷ "codexapp" ∷ "policies" ∷ []) "daemon config"
        ("supervisor" ∷ []))
      (λ u.
        Gives-bind _
          (ignore-Gives _ (validate_runtime-Gives (get value "runtime"))
            (λ port is_local. is_local))
          (λ u is_local. Gives-any (ignore (validate_codexapp (get value "codexapp"))) (λ u.
            Gives-any
              (when_defined (get value "supervisor")
                (validate_supervisor_config (get value "supervisor")))
              (λ u.
                Gives-bind _ (items_of-Gives (get value "policies") "policies must be an array")
                  (λ items has_policies.
                    Gives-bind _
                      (ignore-Gives _ (validate_policies-Gives items 0 [] tt)
                        (λ all unique. unique))
                      (λ u unique. Gives-ok (
                        refl,
                        record {
                          is_local = is_local;
                          policies = items;
                          has_policies = has_policies;
                          has_names = unique;
                        },
                      ))))))))

-- A configuration that `validateDaemonConfig` returns is the one that it was given; its host is one
-- of this machine, its port an integer from 0 to 65535, and no two of its policies have one name.
pub validate_daemon_config-IsAccepted :
    (value accepted : Value)
    → validate_daemon_config value ≡ ok accepted
    → (accepted ≡ value) × IsAccepted value
validate_daemon_config-IsAccepted value accepted returned =
    Gives-eq _ (validate_daemon_config-Gives value) returned

-- A host that is normalised again stays what it is.
abbrev pub IsNormal : String → Type 0
IsNormal host = (label : String) → normalize_loopback_host host label ≡ ok host
