-- ===== src/NetDisc/Tests.antt =====
-- The engine with a wire that is an association list and a umad that follows a script: tests, and
-- instances of the theorems.
use infiniband_diags.Base.{
  ℕ, suc, ◌≤◌, ◌≡◌, refl, inl, inr, Option, none, some, List, [], ◌∷◌, length, arith, ◌==◌,
  if◌then◌else◌, Bool, Bool-cases, false, ◌||◌,
}
use infiniband_diags.Base.Int.{pos}
use infiniband_diags.Mad.Types.{PortId}
use infiniband_diags.Mad.Script.{Script, scripted, scripted-IsFinite}
use infiniband_diags.NetDisc.Engine.{
  Smp, QMap, Config, Engine, queue_smp, get_smp, process_smp_queue,
}
use infiniband_diags.NetDisc.Engine.Queue.{IsQueue, queue_smp-IsQueue, get_smp-IsQueue}
use infiniband_diags.NetDisc.Engine.Serving.{IsQMap, Served, process_smp_queue-Served}
use infiniband_diags.NetDisc.Query.{smp_rpc, serve, issue_smp}
use infiniband_diags.NetDisc.Query.Well.{IsWell, Kept}
use infiniband_diags.NetDisc.Query.Issuing.{Issued, issue_smp-Issued}

abbrev pub Wire : Type 0
Wire = List (ℕ × ℕ)

abbrev pub has : ℕ → Wire → Bool
has key [] = false
has key ((k, v) ∷ m) = k == key || has key m

abbrev pub take_out : ℕ → Wire → Option ℕ × Wire
take_out key [] = (none, [])
take_out key ((k, v) ∷ m) =
    let (found, m') = take_out key m in if k == key then (some v, m) else (found, (k, v) ∷ m')

abbrev pub wires : QMap Wire
wires = record {
  init = [];
  count = length;
  insert = λ key value m. if has key m then m else (key, value) ∷ m;
  remove = take_out;
}

insert_le : (key value : ℕ) (m : Wire) → length (wires.insert key value m) ≤ suc (length m)
insert_le key value m = elim (Bool-cases (has key m)) [
  | inl there ↦ rw there (omega arith)
  | inr new ↦ rw new (omega arith)
]

remove_le : (key : ℕ) (m : Wire) → length (take_out key m).1 ≤ length m
remove_le key [] = omega arith
remove_le key ((k, v) ∷ m) = elim (Bool-cases (k == key)) [
  | inl here ↦ rw here (omega arith)
  | inr other ↦ rw other (omega (arith, remove_le key m))
]

pub wires-IsQMap : IsQMap wires
wires-IsQMap = record { count_init = refl; count_insert = insert_le; count_remove = remove_le }

abbrev pub limits : ℕ → Config
limits max = record { max_smps = max; timeout_ms = 1000; retries = 3; mkey = 0 }

abbrev pub target : PortId
target = record {
  lid = pos 0;
  drpath = record { cnt = pos 0; p = λ a. 0; drslid = 0; drdlid = 0 };
  grh_present = 0;
  gid = λ a. 0;
  qp = 0;
  qkey = 0;
  sl = 0;
  pkey_idx = 0;
}

-- An SMP for NodeInfo; its callback issues `k` others, one after another.
abbrev smp : ℕ → ℕ → Option ℕ → Smp ℕ
smp trid k next = record {
  qnext = next;
  cb = k;
  path = target;
  rpc = smp_rpc (limits 2) target 0x11 0 trid;
}

abbrev Bench : Type 0
Bench = Engine Script Wire ℕ Unit

-- SMPs 0 and 1 wait.
abbrev waiting : Bench
waiting = record {
  smi_agent = pos 0;
  smi_dir_agent = pos 1;
  smp_queue_head = some 0;
  smp_queue_tail = some 1;
  user_data = tt;
  smps_on_wire = [];
  total_smps = 0;
  heap = λ a. if a == 0 then smp 9 0 (some 1) else smp 10 1 none;
  fresh = 2;
  static_trid = 10;
  world = [];
}

two_waiting-IsQueue : IsQueue waiting (0 ∷ 1 ∷ [])
two_waiting-IsQueue = (refl, (1, refl, (refl, (refl, refl))))

queue_smp-IsQueue_example : IsQueue (queue_smp waiting 2) (0 ∷ 1 ∷ 2 ∷ [])
queue_smp-IsQueue_example =
    queue_smp-IsQueue waiting 2 (0 ∷ 1 ∷ []) two_waiting-IsQueue
      (((λ h. omega (arith, h)), tt), (tt, tt))
      ((λ h. omega (arith, h)), ((λ h. omega (arith, h)), tt))

first_is_taken : ((get_smp waiting).0 ≡ some 0) × IsQueue (get_smp waiting).1 (1 ∷ [])
first_is_taken =
    get_smp-IsQueue waiting (0 ∷ 1 ∷ []) two_waiting-IsQueue
      (((λ h. omega (arith, h)), tt), (tt, tt))

process_smp_queue-Served_example :
    Served scripted wires
      (limits 1)
      5
      (0 ∷ 1 ∷ [])
      (process_smp_queue scripted wires (limits 1) 5 3 waiting)
process_smp_queue-Served_example =
    process_smp_queue-Served scripted wires (limits 1) 5 3 waiting (0 ∷ 1 ∷ []) wires-IsQMap
      two_waiting-IsQueue (((λ h. omega (arith, h)), tt), (tt, tt)) (omega arith) (omega arith)

waiting-IsWell : IsWell wires (limits 2) waiting
waiting-IsWell = record {
  waiting = 0 ∷ 1 ∷ [];
  queue = two_waiting-IsQueue;
  distinct = (((λ h. omega (arith, h)), tt), (tt, tt));
  allocated = (omega arith, (omega arith, tt));
  short = omega arith;
  bounded = omega arith;
}

issue_smp-Issued_example :
    Kept wires
      (limits 2)
      length
      waiting
      (issue_smp scripted wires (limits 2) 5 100 waiting target 0x15 1 0).0
    × Issued 100 waiting waiting-IsWell.waiting target 0x15 1 0
        (serve scripted wires (limits 2) 5)
        (issue_smp scripted wires (limits 2) 5 100 waiting target 0x15 1 0).0
issue_smp-Issued_example =
    issue_smp-Issued scripted wires (limits 2) 5 wires-IsQMap length scripted-IsFinite 100 waiting
      target 0x15 1 0 waiting-IsWell
