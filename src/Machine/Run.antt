-- ===== src/Machine/Run.antt =====
-- The whole machine: regions side by side, which share one context. XState decides when a region
-- takes a transition that its tables enable; here any order is a run. Regions that take one event
-- together take it here one after the other, since the transitions of a region on an event change
-- nothing that the guards of other regions on that event read. The machine's own handler writes a
-- port value.
pub mod Effects
pub mod Reacting
pub mod Invariant
pub mod Finalized
pub mod Entry
pub mod Bounds
pub mod Ending
use workflow_control.Prelude.{
  String, Option, none, some, List, ◌≡◌, ◌==◌, In, map_set, if◌then◌else◌,
}
use workflow_control.Machine.Context.{
  MachineContext, MachineEvent, Region, Phase, Reaction, go, go_raise, forward_interrupt,
}
use workflow_control.Machine.Waiting.{react, react_always}

pub record Snapshot : Type 0 where
  pub phase : String → Phase
  pub context : MachineContext

abbrev pub moved : Snapshot → (name : String) → Phase → MachineContext → Snapshot
moved s n p c = record { phase = λ x. if n == x then p else s.phase x; context = c }

-- on.PORT_WRITTEN of the machine itself
unfoldable pub write_port : (key value : String) → MachineContext → MachineContext
write_port key value c = record c { port_values = map_set c.port_values key value }

-- The reaction enters a phase with a context.
abbrev pub Enters : Option Reaction → Phase → MachineContext → Type 0
Enters none p c = ⊥
Enters (some (go p' c')) p c = (p' ≡ p) × (c' ≡ c)
Enters (some (go_raise p' c' retry)) p c = (p' ≡ p) × (c' ≡ c)
Enters (some forward_interrupt) p c = ⊥

pub data Step (rs : List Region) (s s' : Snapshot) : Type 0 where
  on_event :
      (r : Region) (e : MachineEvent) (p : Phase) (c : MachineContext)
      → In r rs
      → Enters (react r e (s.phase r.name) s.context) p c
      → s' ≡ moved s r.name p c
      → Step rs s s'
  of_itself :
      (r : Region) (p : Phase) (c : MachineContext)
      → In r rs
      → Enters (react_always r (s.phase r.name) s.context) p c
      → s' ≡ moved s r.name p c
      → Step rs s s'
  write :
      (key value : String)
      → s' ≡ record s { context = write_port key value s.context }
      → Step rs s s'

pub data Runs (rs : List Region) (s : Snapshot) : Snapshot → Type 0 where
  here : Runs rs s s
  next : {t u : Snapshot} → Runs rs s t → Step rs t u → Runs rs s u
