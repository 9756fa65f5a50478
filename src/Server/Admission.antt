-- ===== src/Server/Admission.antt =====
-- `handleWS` of server/server.go: the count of connections. The check of the count and its increment
-- are separate steps with the upgrade of the connection in between, so the requests that have passed
-- the check and do not count yet are part of the state.
use spectre_relay.Prelude.{
  ℕ, zero, suc, ◌+◌, ◌≤◌, ◌<◌, ◌≡◌, ◌∙◌, ap, List, [], ◌∷◌, if◌then◌else◌, leb, arith,
}

pub record Gate : Type 0 where
  pub active : ℕ
  pub pending : ℕ

-- A request at its check, at the end of an upgrade that succeeds or fails, and at its return.
pub data GateEvent : Type 0 where
  arrives upgraded refused leaves : GateEvent

abbrev pub count_in : ℕ → ℕ → Gate
count_in active zero = record { active = active; pending = 0 }
count_in active (suc pending) = record { active = suc active; pending = pending }

abbrev pub give_up : ℕ → ℕ → Gate
give_up active zero = record { active = active; pending = 0 }
give_up active (suc pending) = record { active = active; pending = pending }

abbrev pub count_out : ℕ → ℕ → Gate
count_out zero pending = record { active = 0; pending = pending }
count_out (suc active) pending = record { active = active; pending = pending }

unfoldable pub gate_step : ℕ → Gate → GateEvent → Gate
gate_step max s arrives =
    if leb max s.active then s else record { active = s.active; pending = suc s.pending }
gate_step max s upgraded = count_in s.active s.pending
gate_step max s refused = give_up s.active s.pending
gate_step max s leaves = count_out s.active s.pending

unfoldable pub run_gate : ℕ → Gate → List GateEvent → Gate
run_gate max s [] = s
run_gate max s (e ∷ es) = run_gate max (gate_step max s e) es

abbrev pub idle : Gate
idle = record { active = 0; pending = 0 }

-- No request arrives while another is between its check and its count.
abbrev pub MayCome : Gate → GateEvent → Type 0
MayCome s arrives = s.pending ≡ 0
MayCome s _ = Unit {0}

abbrev pub IsSequential : ℕ → Gate → List GateEvent → Type 0
IsSequential max s [] = Unit {0}
IsSequential max s (e ∷ es) = MayCome s e × IsSequential max (gate_step max s e) es

abbrev Fits : ℕ → Gate → Type 0
Fits max s = s.active + s.pending ≤ max

count_in-Fits : (max a p : ℕ) → a + p ≤ max → Fits max (count_in a p)
count_in-Fits max a zero h = omega arith
count_in-Fits max a (suc p) h = omega arith

give_up-Fits : (max a p : ℕ) → a + p ≤ max → Fits max (give_up a p)
give_up-Fits max a zero h = omega arith
give_up-Fits max a (suc p) h = omega arith

count_out-Fits : (max a p : ℕ) → a + p ≤ max → Fits max (count_out a p)
count_out-Fits max zero p h = omega arith
count_out-Fits max (suc a) p h = omega arith

gate_step-Fits :
    (max : ℕ) (s : Gate) (e : GateEvent) → Fits max s → MayCome s e → Fits max (gate_step max s e)
unfolding gate_step
gate_step-Fits max s arrives h c = ground arith
gate_step-Fits max s upgraded h c = count_in-Fits max s.active s.pending h
gate_step-Fits max s refused h c = give_up-Fits max s.active s.pending h
gate_step-Fits max s leaves h c = count_out-Fits max s.active s.pending h

run_gate-Fits :
    (max : ℕ) (s : Gate) (es : List GateEvent)
    → Fits max s
    → IsSequential max s es
    → Fits max (run_gate max s es)
unfolding run_gate
run_gate-Fits max s [] h q = h
run_gate-Fits max s (e ∷ es) h q =
    run_gate-Fits max (gate_step max s e) es (gate_step-Fits max s e h q.0) q.1

-- As long as no request is checked while another is being upgraded, there are never more
-- connections than the maximum.
pub run_gate-sequential :
    (max : ℕ) (es : List GateEvent) → IsSequential max idle es → (run_gate max idle es).active ≤ max
run_gate-sequential max es q = omega (arith, run_gate-Fits max idle es (omega arith) q)

abbrev pub times : ℕ → GateEvent → List GateEvent → List GateEvent
times zero e es = es
times (suc n) e es = e ∷ times n e es

all_arrive :
    (max n p : ℕ) (es : List GateEvent)
    → 0 < max
    → run_gate max (record { active = 0; pending = p }) (times n arrives es)
      ≡ run_gate max (record { active = 0; pending = p + n }) es
unfolding run_gate gate_step
all_arrive max zero p es h =
    ap (λ (k : ℕ). run_gate max (record { active = 0; pending = k }) es) (omega arith)
all_arrive max (suc n) p es h =
    let first : gate_step max (record { active = 0; pending = p }) arrives
        ≡ record { active = 0; pending = suc p } =
      ground arith in
    ap (λ (s : Gate). run_gate max s (times n arrives es)) first
    ∙ all_arrive max n (suc p) es h
    ∙ ap (λ (k : ℕ). run_gate max (record { active = 0; pending = k }) es) (omega arith)

all_count :
    (max n a : ℕ)
    → run_gate max (record { active = a; pending = n }) (times n upgraded [])
      ≡ record { active = a + n; pending = 0 }
unfolding run_gate gate_step
all_count max zero a = ap (λ (k : ℕ). record { active = k; pending = 0 }) (omega arith)
all_count max (suc n) a =
    all_count max n (suc a) ∙ ap (λ (k : ℕ). record { active = k; pending = 0 }) (omega arith)

-- If the maximum is not 0, any number of requests that are all checked before the first of them
-- counts become connections, whatever the maximum.
pub run_gate-overlap :
    (max n : ℕ) → 0 < max → (run_gate max idle (times n arrives (times n upgraded []))).active ≡ n
run_gate-overlap max n h =
    ap (λ (s : Gate). s.active) (all_arrive max n 0 (times n upgraded []) h)
    ∙ ap
        (λ (k : ℕ).
          (run_gate max (record { active = 0; pending = k }) (times n upgraded [])).active)
        (omega arith)
    ∙ ap (λ (s : Gate). s.active) (all_count max n 0)
    ∙ omega arith
