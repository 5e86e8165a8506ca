-- ===== src/Dragon/Hub/Tests.antt =====
-- The rings and the hub at concrete pools, the theorems at those.
use lina_cpx.Prelude.{◌≡◌, true, List, [], ◌∷◌, none, some, codes, arith}
use lina_cpx.Dragon.Ring.{RingBuffer, ring_push}
use lina_cpx.Dragon.Ring.Queue.{Frame, Op, push, pop, run_queue, run_ring}
use lina_cpx.Dragon.Ring.Frames.{Holds}
use lina_cpx.Dragon.Ring.Pop.{run_refines}
use lina_cpx.Dragon.Hub.{Os, Answers, Hub}

-- near the end of the payload area, so that a frame goes round it
abbrev empty_ring : RingBuffer
empty_ring = record { head = 268435326; tail = 268435326; payload = λ i. 0 }

empty_ring-Holds : Holds empty_ring []
empty_ring-Holds = omega arith

abbrev hello : Frame
hello = record { type = 1; bytes = codes "hello" }

one_frame : RingBuffer
one_frame = (ring_push empty_ring 1 (codes "hello")).1

abbrev history : List Op
history = push hello ∷ push hello ∷ pop (some 16) ∷ pop (some 2) ∷ pop none ∷ []

run_refines_example : run_ring empty_ring history ≡ run_queue [] history
run_refines_example = run_refines history empty_ring [] empty_ring-Holds (omega arith)

abbrev clean : Os
clean = record {
  pool = record {
    header = record {
      global_clock = 0;
      system_status = 0;
      spoke_health = 5;
      magic = 0x4C494E4143415256;
    };
    tx = empty_ring;
    rx = empty_ring;
  };
  open_fds = 0;
  mappings = 0;
}

abbrev answers : Answers
answers = record { st_size = some 1_090_519_040; opened = some 7; mapped = true }

abbrev attached_hub : Hub
attached_hub = record { fd = some 7; base = true }

abbrev in_use : Os
in_use = record clean { open_fds = 1; mappings = 1 }

-- bit 1 is the value engine's; bits 0 and 2 are up already
