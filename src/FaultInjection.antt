-- ===== src/FaultInjection.antt =====
-- Fault injection: the manager and the injectors of common/fault_injection/fault_injection.cc,
-- fault_injection.h, fault_injector_random.cc and fault_injector_random.h. The random generators of
-- the C++ library are a parameter: a generator together with the distribution that is drawn from it.
pub mod Isolation
pub mod SecondSet
mod Tests
use Prim.Native.Nat.{bit_xor}
use Prim.Native.String.{String}
use text.Mathlib.Text.{◌==◌ as str_eq}
use sniper.Base.{
  ℕ, ◌+◌, ◌^◌, ◌==◌, Bool, true, false, Option, none, some, List, if◌then◌else◌, get_or, set,
  for_range,
}
use sniper.MagicServer.{MagicServer, byte_addr, approx_addr_setnum}

pub data FaultType : Type 0 where
  fault_type_toggle fault_type_set0 fault_type_set1 : FaultType

pub data InjectorType : Type 0 where
  fault_injector_none fault_injector_random : InjectorType

pub record Manager : Type 0 where
  pub fault_type : FaultType
  pub injector : InjectorType
  pub fault_applied : Bool

-- What `FaultinjectionManager::create` does: an unknown name stops the simulator.
pub data Created : Type 0 where
  disabled : Created
  enabled : Manager → Created
  unknown_scheme unknown_injector : Created

with_injector : String → FaultType → Created
with_injector s_injector fault_type =
    if str_eq s_injector "none"
    then enabled
        (record { fault_type = fault_type; injector = fault_injector_none; fault_applied = true })
    else if str_eq s_injector "random"
    then enabled
        (record { fault_type = fault_type; injector = fault_injector_random; fault_applied = true })
    else unknown_injector

pub create : String → String → Created
unfolding with_injector
create s_type s_injector =
    if str_eq s_type "toggle"
    then with_injector s_injector fault_type_toggle
    else if str_eq s_type "set0"
    then with_injector s_injector fault_type_set0
    else if str_eq s_type "set1"
    then with_injector s_injector fault_type_set1
    else if str_eq s_type "none"
    then disabled
    else unknown_scheme

-- `applyFault` prints a line and returns; what stands below its `return` does not run.
pub apply_fault : Manager → ℕ → ℕ → List ℕ → List ℕ → List ℕ
apply_fault m read_address data_size bytes fault = bytes

pub record Rng : Type 1 where
  pub Gen : Type 0
  -- `rand_num->operator()(generator)`
  pub draw : Gen → Bool × Gen

module _ (rng : Rng) where
  -- The generators of `FaultInjectorRandom`, with their distributions.
  pub record Generators : Type 0 where
    pub gen_r : rng.Gen
    pub gen_h : rng.Gen
    pub gen_w : rng.Gen
    pub gen_r_2 : rng.Gen
    pub gen_h_2 : rng.Gen
    pub gen_w_2 : rng.Gen

  -- `FaultInjector` and its subclass.
  pub data Injector : Type 0 where
    plain : Injector
    random : Generators → Injector

  -- `getFaultInjector`, with the generators that the constructor seeds.
  pub get_fault_injector : Manager → Generators → Injector
  get_fault_injector m seeded = elim m.injector [
    | fault_injector_none ↦ plain
    | fault_injector_random ↦ random seeded
  ]

  -- One draw, and `fault[i] ^= (1 << j)` if it hits.
  abbrev pub flip : ℕ → ℕ × rng.Gen → ℕ × rng.Gen
  flip j (byte, g) = let (hit, g') = rng.draw g in (if hit then bit_xor byte (2 ^ j) else byte, g')

  -- The loop over the eight bits of a byte in `preRead`, on two generators.
  abbrev pub read_flip : ℕ → ℕ × rng.Gen × rng.Gen → ℕ × rng.Gen × rng.Gen
  read_flip j (byte, r, h) =
      let (byte', r') = flip j (byte, r) in let (byte'', h') = flip j (byte', h) in (byte'', r', h')

  pub read_flips : ℕ → ℕ × rng.Gen × rng.Gen → ℕ × rng.Gen × rng.Gen
  unfolding for_range
  read_flips rounds s = for_range rounds 0 read_flip s

  -- The loop in `postWrite`, on one.
  pub write_flips : ℕ → ℕ × rng.Gen → ℕ × rng.Gen
  unfolding for_range
  write_flips rounds s = for_range rounds 0 flip s

  -- The two branches of the loop over the bytes in `preRead`.
  pub read_set_0 : ℕ → List ℕ × Generators → List ℕ × Generators
  unfolding read_flips
  read_set_0 i (fault, g) =
      let (byte, r, h) = read_flips 8 (get_or fault i 0, g.gen_r, g.gen_h) in
      (set fault i byte, record g { gen_r = r; gen_h = h })

  pub read_set_1 : ℕ → List ℕ × Generators → List ℕ × Generators
  unfolding read_flips
  read_set_1 i (fault, g) =
      let (byte, r, h) = read_flips 8 (get_or fault i 0, g.gen_r_2, g.gen_h_2) in
      (set fault i byte, record g { gen_r_2 = r; gen_h_2 = h })

  -- The same in `postWrite`.
  pub write_set_0 : ℕ → List ℕ × Generators → List ℕ × Generators
  unfolding write_flips
  write_set_0 i (fault, g) =
      let (byte, w) = write_flips 8 (get_or fault i 0, g.gen_w) in
      (set fault i byte, record g { gen_w = w })

  pub write_set_1 : ℕ → List ℕ × Generators → List ℕ × Generators
  unfolding write_flips
  write_set_1 i (fault, g) =
      let (byte, w) = write_flips 8 (get_or fault i 0, g.gen_w_2) in
      (set fault i byte, record g { gen_w_2 = w })

  -- The bodies of the loops over the bytes.
  pub pre_read_byte : MagicServer → ℕ → ℕ → List ℕ × Generators → List ℕ × Generators
  unfolding read_set_0 read_set_1
  pre_read_byte ms addr i s = elim (approx_addr_setnum ms (byte_addr addr i)) [
    | none ↦ s
    | some k ↦ if k == 0 then read_set_0 i s else if k == 1 then read_set_1 i s else s
  ]

  pub post_write_byte : MagicServer → ℕ → ℕ → List ℕ × Generators → List ℕ × Generators
  unfolding write_set_0 write_set_1
  post_write_byte ms addr i s = elim (approx_addr_setnum ms (byte_addr addr i)) [
    | none ↦ s
    | some k ↦ if k == 0 then write_set_0 i s else if k == 1 then write_set_1 i s else s
  ]

  -- `preRead(addr, location, data_size, fault, time)`; `fault` are the bytes from the pointer on.
  unfoldable pub pre_read : MagicServer → ℕ → ℕ → Injector → List ℕ → List ℕ × Injector
  unfolding for_range pre_read_byte
  pre_read ms addr data_size plain fault = (fault, plain)
  pre_read ms addr data_size (random g) fault =
      let (fault', g') = for_range data_size 0 (pre_read_byte ms addr) (fault, g) in
      (fault', random g')

  unfoldable pub post_write : MagicServer → ℕ → ℕ → Injector → List ℕ → List ℕ × Injector
  unfolding for_range post_write_byte
  post_write ms addr data_size plain fault = (fault, plain)
  post_write ms addr data_size (random g) fault =
      let (fault', g') = for_range data_size 0 (post_write_byte ms addr) (fault, g) in
      (fault', random g')
