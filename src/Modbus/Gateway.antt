-- ===== src/Modbus/Gateway.antt =====
-- The gateway of the M4 core, OKMX8MM-Demo3/okmx8mm-m4/src/demo3_m4_gateway.c: it reads a sample
-- from the bus and hands it on. The two contexts are the states `B` and `P`.
pub mod Chain
use okmx8mm.Base.{ℕ, Bool, true, false, not, ◌||◌, Option, none, some, ◌==◌, if◌then◌else◌}
use okmx8mm.Base.{Result, ok, err, ℤ, pos, minus, failed}
use okmx8mm.Sample.{Sample}
use okmx8mm.Modbus.{Bus, read_sample}

-- `demo3_m4_publish_fn`: the return code, and the context after the call.
abbrev pub Publish : Type 0 → Type 0
Publish P = P → Sample → ℤ × P

-- `demo3_m4_gateway_t`; `publish` may be a null pointer.
pub record Gateway (B P : Type 0) : Type 0 where
  pub bus : Bus B
  pub publish : Option (Publish P)
  pub slave_id : ℕ
  pub start_register : ℕ

-- `demo3_m4_gateway_init`. `given` says that the gateway, the bus context and the callbacks of
-- the bus are no null pointers.
unfoldable pub init :
    {B P : Type 0} → Bool → Bus B → Option (Publish P) → ℕ → ℕ → Result (Gateway B P)
init given bus publish slave_id start_register =
    if not given || slave_id == 0
    then err 1
    else ok (record {
      bus = bus;
      publish = publish;
      slave_id = slave_id;
      start_register = start_register;
    })

-- What `demo3_m4_gateway_poll` leaves: its code, what it wrote to the sample, and the contexts.
pub record Polled (B P : Type 0) : Type 0 where
  pub code : ℤ
  pub sample : Option Sample
  pub bus_context : B
  pub publish_context : P

-- The publication of a sample that was read.
unfoldable pub hand_on : {B P : Type 0} → Option (Publish P) → Sample → B → P → Polled B P
hand_on none s b p = record { code = pos 0; sample = some s; bus_context = b; publish_context = p }
hand_on (some publish) s b p =
    let (code, after) = publish p s in
    record {
      code = if failed code then minus 6 else pos 0;
      sample = some s;
      bus_context = b;
      publish_context = after;
    }

unfoldable pub poll : {B P : Type 0} → Bool → Gateway B P → B → P → Polled B P
poll false gateway b p = record {
  code = minus 1;
  sample = none;
  bus_context = b;
  publish_context = p;
}
poll true gateway b p =
    let (result, b') = read_sample true gateway.bus b gateway.slave_id gateway.start_register in
    elim result [
      | err n ↦ record { code = minus n; sample = none; bus_context = b'; publish_context = p }
      | ok s ↦ hand_on gateway.publish s b' p
    ]
