-- ===== src/Harness/Gateway.antt =====
-- The shared gateway, dashboard/apps/web/regression/core/gateway-stability.ts. `localeCompare` is a
-- parameter: its order on the uids.
use aippliance_magic_stick.Prelude.{
  ℕ, Bool, true, false, Option, none, some, List, [], ◌∷◌, String, not, ◌&&◌, ◌==◌, ltb, leb,
  if◌then◌else◌, is_some, any, all, filter, length, All, ◌≡◌, refl, arith, ◌<◌, ltb→lt, sym, ap,
  ◌⊎◌, inl, inr,
}
use aippliance_magic_stick.Prelude.Text.{str_eq, str_eq_iff, same_text, truthy, Labels, lookup}

pub record GatewayProcess : Type 0 where
  pub uid : String
  pub container_id : String
  pub restarts : ℕ
  pub ready : Bool
  pub last_exit_code : Option ℕ

-- The fields of a Pod that are read; a number that is no safe natural number is absent.
pub record Container : Type 0 where
  pub name : String
  pub container_id : Option String
  pub restart_count : Option ℕ
  pub ready : Bool
  pub running : Bool
  pub exit_code : Option ℕ

pub record Pod : Type 0 where
  pub namespace : String
  pub labels : Labels
  pub uid : Option String
  pub deleting : Bool
  pub phase : Option String
  pub ready_condition : Bool
  pub containers : List Container

abbrev is_proxy : Pod → Bool
is_proxy pod =
    str_eq pod.namespace "envoy-gateway-system"
    && same_text (lookup pod.labels "app.kubernetes.io/managed-by") (some "envoy-gateway")
    && same_text (lookup pod.labels "app.kubernetes.io/component") (some "proxy")

abbrev valid_exit : Option ℕ → Bool
valid_exit none = true
valid_exit (some code) = leb code 255

abbrev process : Pod → String → String → ℕ → Container → GatewayProcess
process pod uid container_id restarts c = record {
  uid = uid;
  container_id = container_id;
  restarts = restarts;
  ready =
      not pod.deleting
      && same_text pod.phase (some "Running")
      && c.ready
      && c.running
      && pod.ready_condition;
  last_exit_code = c.exit_code;
}

-- `none` is the call of `failure()`.
abbrev of_container :
    Pod → Option String → Option String → Option ℕ → Container → Option GatewayProcess
of_container pod (some uid) (some id) (some restarts) c =
    if truthy uid && truthy id && valid_exit c.exit_code
    then some (process pod uid id restarts c)
    else none
of_container pod _ _ _ c = none

abbrev of_containers : Pod → List Container → Option GatewayProcess
of_containers pod (c ∷ []) = of_container pod pod.uid c.container_id c.restart_count c
of_containers pod _ = none

unfoldable pub process_of : Pod → Option GatewayProcess
process_of pod = of_containers pod (filter (λ c. str_eq c.name "envoy") pod.containers)

abbrev cons_both :
    Option GatewayProcess → Option (List GatewayProcess) → Option (List GatewayProcess)
cons_both (some p) (some ps) = some (p ∷ ps)
cons_both _ _ = none

unfoldable pub processes_of : List Pod → Option (List GatewayProcess)
processes_of [] = some []
processes_of (pod ∷ pods) = cons_both (process_of pod) (processes_of pods)

abbrev has_uid : String → GatewayProcess → Bool
has_uid uid p = str_eq p.uid uid

-- `new Set(uids).size === processes.length`
abbrev pub distinct : List GatewayProcess → Bool
distinct [] = true
distinct (p ∷ ps) = not (any (has_uid p.uid) ps) && distinct ps

module _ (before : String → String → Bool) where
  abbrev insert : GatewayProcess → List GatewayProcess → List GatewayProcess
  insert p [] = p ∷ []
  insert p (q ∷ qs) = let rest = insert p qs in if before q.uid p.uid then q ∷ rest else p ∷ q ∷ qs

  -- `.sort((a, b) => a.uid.localeCompare(b.uid))`
  unfoldable pub sort : List GatewayProcess → List GatewayProcess
  sort [] = []
  sort (p ∷ ps) = insert p (sort ps)

  abbrev if_distinct : Option (List GatewayProcess) → Option (List GatewayProcess)
  if_distinct none = none
  if_distinct (some ps) = if distinct ps then some (sort ps) else none

  unfoldable pub gateway_process_snapshot : List Pod → Option (List GatewayProcess)
  gateway_process_snapshot pods =
      let proxies = filter is_proxy pods in
      if ltb 0 (length proxies) && leb (length proxies) 32
      then if_distinct (processes_of proxies)
      else none

-- `current.get(uid)`: the last process of the uid.
abbrev pub current : List GatewayProcess → String → Option GatewayProcess
current [] uid = none
current (p ∷ ps) uid =
    let rest = current ps uid in
    if is_some rest then rest else (if has_uid uid p then some p else none)

abbrev same_code : Option ℕ → Option ℕ → Bool
same_code none none = true
same_code (some a) (some b) = a == b
same_code none (some b) = false
same_code (some a) none = false

abbrev pub same_process : GatewayProcess → Option GatewayProcess → Bool
same_process original none = false
same_process original (some observed) =
    original.ready
    && observed.ready
    && str_eq original.container_id observed.container_id
    && original.restarts == observed.restarts
    && same_code original.last_exit_code observed.last_exit_code

-- assertGatewayStable returns.
unfoldable pub is_gateway_stable : List GatewayProcess → List GatewayProcess → Bool
is_gateway_stable before after =
    ltb 0 (length before)
    && length before == length after
    && distinct after
    && all (λ original. same_process original (current after original.uid)) before

-- A listed process with a property.
abbrev pub Listed : (GatewayProcess → Type 0) → List GatewayProcess → Type 0
Listed Q [] = ⊥
Listed Q (p ∷ ps) = Q p ⊎ Listed Q ps

-- One process observed twice: nothing of it has changed, and it was ready both times.
pub record IsStable (original observed : GatewayProcess) : Type 0 where
  pub uid : observed.uid ≡ original.uid
  pub was_ready : original.ready ≡ true
  pub is_ready : observed.ready ≡ true
  pub container_id : observed.container_id ≡ original.container_id
  pub restarts : observed.restarts ≡ original.restarts
  pub last_exit_code : observed.last_exit_code ≡ original.last_exit_code

same_code→≡ : (a b : Option ℕ) → same_code a b ≡ true → b ≡ a
same_code→≡ none none h = refl
same_code→≡ (some a) (some b) h = let e : b ≡ a = ground (arith, h) in ap some e
same_code→≡ none (some b) h = absurd (ground (arith, h))
same_code→≡ (some a) none h = absurd (ground (arith, h))

IsStable-same_process :
    (original p : GatewayProcess)
    → str_eq p.uid original.uid ≡ true
    → same_process original (some p) ≡ true
    → IsStable original p
IsStable-same_process original p u h = record {
  uid = (str_eq_iff p.uid original.uid).0 u;
  was_ready = ground (arith, h);
  is_ready = ground (arith, h);
  container_id = sym ((str_eq_iff original.container_id p.container_id).0 (ground (arith, h)));
  restarts = ground (arith, h);
  last_exit_code = same_code→≡ original.last_exit_code p.last_exit_code (
      last original.ready p.ready (str_eq original.container_id p.container_id)
        (original.restarts == p.restarts) _ h);
}
  where
    last : (a b c d e : Bool) → (a && b && c && d && e) ≡ true → e ≡ true
    last a b c d e h = ground (arith, h)

current_lem :
    (original : GatewayProcess) (after : List GatewayProcess)
    → same_process original (current after original.uid) ≡ true
    → Listed (IsStable original) after
current_lem original [] h = absurd (ground (arith, h))
current_lem original (p ∷ ps) h =
    by_rest (current ps original.uid) (has_uid original.uid p) refl h (current_lem original ps)
  where
    by_rest :
        (rest : Option GatewayProcess) (b : Bool)
        → has_uid original.uid p ≡ b
        → same_process original (if is_some rest then rest else (if b then some p else none)) ≡ true
        → (same_process original rest ≡ true → Listed (IsStable original) ps)
        → IsStable original p ⊎ Listed (IsStable original) ps
    by_rest (some q) b u h k = inr (k h)
    by_rest none true u h k = inl (IsStable-same_process original p u h)
    by_rest none false u h k = absurd (ground (arith, h))

all_lem :
    (after before : List GatewayProcess)
    → all (λ original. same_process original (current after original.uid)) before ≡ true
    → All (λ original. Listed (IsStable original) after) before
all_lem after [] h = tt
all_lem after (p ∷ ps) h = (current_lem p after (first _ _ h), all_lem after ps (second _ _ h))
  where
    first : (a b : Bool) → a && b ≡ true → a ≡ true
    first a b h = ground (arith, h)

    second : (a b : Bool) → a && b ≡ true → b ≡ true
    second a b h = ground (arith, h)

-- If the gateway is found stable, there are as many processes as before, at least one, and for each
-- earlier one a process is listed now with the same uid, container, number of restarts and last
-- exit code, which was ready then and is ready now.
pub is_gateway_stable-All :
    (before after : List GatewayProcess)
    → is_gateway_stable before after ≡ true
    → (0 < length before)
      × (length after ≡ length before)
      × All (λ original. Listed (IsStable original) after) before
unfolding is_gateway_stable
is_gateway_stable-All before after h =
    let here = all (λ original. same_process original (current after original.uid)) before in
    (
      ltb→lt 0 (length before)
          (first (ltb 0 (length before)) (length before == length after) (distinct after) here h),
      same_length (ltb 0 (length before)) (distinct after) here (length before) (length after) h,
      all_lem after before
          (last (ltb 0 (length before)) (length before == length after) (distinct after) here h),
    )
  where
    first : (a b c d : Bool) → a && b && c && d ≡ true → a ≡ true
    first a b c d h = ground (arith, h)

    last : (a b c d : Bool) → a && b && c && d ≡ true → d ≡ true
    last a b c d h = ground (arith, h)

    same_length : (a c d : Bool) (m n : ℕ) → a && m == n && c && d ≡ true → n ≡ m
    same_length a c d m n h = ground (arith, h)
