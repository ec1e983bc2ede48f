-- ===== src/CircularBuffer/Represents.antt =====
-- A buffer against the sequence of the values in it, oldest first: slot by slot, so that no
-- object lives in a slot outside the sequence.
use native.Mathlib.Nat.{mod-add-mod, mod-eq_of_lt, mod-lt, add-mod_right}
use picolibrary.Common.{
  ℕ, zero, suc, ◌+◌, ◌-◌, ◌%◌, ◌^◌, ◌≤◌, ◌<◌, ◌≡◌, refl, sym, ap, ap₂, subst, ◌∙◌, true, none, some,
  List, [], ◌∷◌, ◌++◌, length, get_or, set, length-set, length-replicate, length-append, arith,
}
use picolibrary.Common.Modular.{two-pow-pos}
use picolibrary.BitManipulation.{is_power_of_two}
use picolibrary.CircularBuffer.{
  CircularBuffer, advance, new_buffer, front, back, empty, push_bypass, pop_bypass, clear_loop,
  clear,
}
use picolibrary.CircularBuffer.Holds.{
  Holds, get_elem?-append_self, get_or-replicate, Holds-push, Holds-pop, Holds-front,
}
use picolibrary.CircularBuffer.Index.{
  index_next, mask-mod, capacity-pos, advance-mod, capacity-double,
}

-- What the class asserts of its template arguments: `N` is a value of `Size_Type` and a power of
-- two.
pub record IsCapacity (digits capacity : ℕ) : Type 0 where
  pub representable : capacity < 2 ^ digits
  pub power : is_power_of_two capacity ≡ true

pub record Represents {ℓ} {A : Type ℓ} (capacity : ℕ) (b : CircularBuffer A) (values : List A)
    : Type ℓ where
  pub slots : length b.m_storage ≡ capacity
  pub read_in : b.m_read < capacity
  pub write_at : b.m_write ≡ (b.m_read + b.m_size) % capacity
  pub size_is : b.m_size ≡ length values
  pub size_in : b.m_size ≤ capacity
  pub holds : Holds capacity b.m_storage b.m_read values

module _ {ℓ} {A : Type ℓ} (digits capacity : ℕ) (c : IsCapacity digits capacity) where
  pub new_buffer-Represents : Represents capacity (new_buffer {A = A} digits capacity) []
  unfolding new_buffer
  new_buffer-Represents = record {
    slots = length-replicate capacity none;
    read_in = capacity-pos capacity c.power;
    write_at = sym (mod-eq_of_lt (capacity-pos capacity c.power));
    size_is = refl;
    size_in = omega arith;
    holds = λ k h. get_or-replicate capacity _;
  }

  -- `push` of a buffer that is not full appends its argument.
  pub push_bypass-Represents :
      (b : CircularBuffer A) (values : List A) (x : A)
      → Represents capacity b values
      → length values < capacity
      → Represents capacity (push_bypass digits capacity b x) (values ++ (x ∷ []))
  unfolding push_bypass
  push_bypass-Represents b values x r room = record {
    slots = length-set b.m_storage b.m_write (some x) ∙ r.slots;
    read_in = r.read_in;
    write_at =
        advance-mod digits capacity b.m_write c.power c.representable
          (omega (arith, r.write_at, mod-lt (b.m_read + b.m_size) below_capacity))
        ∙ ap (λ i. (i + 1) % capacity) r.write_at
        ∙ mod-add-mod (b.m_read + b.m_size) capacity 1
        ∙ ap (λ t. t % capacity) (omega (arith, grown));
    size_is = grown ∙ omega (arith, length-append values (x ∷ []));
    size_in = omega (arith, grown);
    holds =
        subst (λ i. Holds capacity (set b.m_storage i (some x)) b.m_read (values ++ (x ∷ [])))
          (sym (r.write_at ∙ ap (λ n. (b.m_read + n) % capacity) r.size_is))
          (Holds-push capacity b.m_storage r.slots b.m_read r.read_in values x r.holds room);
  }
    where
      below_capacity : 0 < capacity
      below_capacity = omega arith

      grown : (b.m_size + 1) % 2 ^ digits ≡ b.m_size + 1
      grown = mod-eq_of_lt (omega (arith, c.representable, r.size_is))

  -- `pop` of a buffer that is not empty removes its oldest value.
  pub pop_bypass-Represents :
      (b : CircularBuffer A) (x : A) (values : List A)
      → Represents capacity b (x ∷ values)
      → Represents capacity (pop_bypass digits capacity b) values
  unfolding pop_bypass
  pop_bypass-Represents b x values r = record {
    slots = length-set b.m_storage b.m_read none ∙ r.slots;
    read_in = rw next (mod-lt (b.m_read + 1) (omega arith));
    write_at =
        r.write_at
        ∙ ap (λ n. (b.m_read + n) % capacity) (omega (arith, shrunk, r.size_is))
        ∙ sym (index_next capacity b.m_read (length values))
        ∙ sym (ap₂ (λ i n. (i + n) % capacity) next (shrunk ∙ omega (arith, r.size_is)));
    size_is = shrunk ∙ omega (arith, r.size_is);
    size_in = omega (arith, shrunk);
    holds =
        subst (λ i. Holds capacity (set b.m_storage b.m_read none) i values) (sym next)
          (Holds-pop capacity b.m_storage r.slots b.m_read r.read_in x values r.holds
            (omega (arith, r.size_is)));
  }
    where
      next : advance digits capacity b.m_read ≡ (b.m_read + 1) % capacity
      next = advance-mod digits capacity b.m_read c.power c.representable r.read_in

      shrunk : (b.m_size + (2 ^ digits - 1)) % 2 ^ digits ≡ b.m_size - 1
      shrunk =
          ap (λ t. t % 2 ^ digits) (omega (arith, r.size_is, two-pow-pos digits))
          ∙ add-mod_right (b.m_size - 1) (2 ^ digits)
          ∙ mod-eq_of_lt (omega (arith, c.representable))

  clear_loop_empty :
      (fuel : ℕ) (b : CircularBuffer A) → b.m_size ≡ 0 → clear_loop digits capacity (suc fuel) b ≡ b
  unfolding clear_loop empty
  clear_loop_empty fuel b e = ground arith

  clear_loop_more :
      (fuel : ℕ) (b : CircularBuffer A)
      → 0 < b.m_size
      → clear_loop digits capacity (suc fuel) b
        ≡ clear_loop digits capacity fuel (pop_bypass digits capacity b)
  unfolding clear_loop empty
  clear_loop_more fuel b h = ground arith

  clear_loop-Represents :
      (values : List A) (fuel : ℕ) (b : CircularBuffer A)
      → Represents capacity b values
      → length values ≤ fuel
      → Represents capacity (clear_loop digits capacity fuel b) []
  clear_loop-Represents [] zero b r h = unfold clear_loop in r
  clear_loop-Represents [] (suc fuel) b r h =
      subst (λ z. Represents capacity z []) (sym (clear_loop_empty fuel b r.size_is)) r
  clear_loop-Represents (x ∷ values) zero b r h = absurd (omega arith)
  clear_loop-Represents (x ∷ values) (suc fuel) b r h =
      subst (λ z. Represents capacity z [])
        (sym (clear_loop_more fuel b (omega (arith, r.size_is))))
        (clear_loop-Represents values fuel (pop_bypass digits capacity b)
          (pop_bypass-Represents b x values r) (omega arith))

  -- `clear` ends, and leaves no object in any slot.
  pub clear-Represents :
      (b : CircularBuffer A) (values : List A)
      → Represents capacity b values
      → Represents capacity (clear digits capacity b) []
  unfolding clear
  clear-Represents b values r = clear_loop-Represents values b.m_size b r (omega (arith, r.size_is))

  pub front-eq :
      (b : CircularBuffer A) (x : A) (values : List A)
      → Represents capacity b (x ∷ values)
      → front digits capacity b ≡ some x
  unfolding front
  front-eq b x values r =
      Holds-front capacity b.m_storage r.slots b.m_read r.read_in x values r.holds

  -- The last of the values is at `back`.
  pub back-eq :
      (b : CircularBuffer A) (values : List A) (x : A)
      → Represents capacity b (values ++ (x ∷ []))
      → back digits capacity b ≡ some x
  unfolding back
  back-eq b values x r =
      ap (λ i. get_or b.m_storage i none)
        (mask-mod capacity _ c.power ∙ ap (λ t. t % capacity) last_index)
      ∙ r.holds (length values) (omega (arith, sized))
      ∙ get_elem?-append_self values x
    where
      sized : b.m_size ≡ length values + 1
      sized = omega (arith, r.size_is, length-append values (x ∷ []))

      last_index : (b.m_read + b.m_size + (2 ^ digits - 1)) % 2 ^ digits ≡ b.m_read + length values
      last_index =
          ap (λ t. t % 2 ^ digits) (omega (arith, sized, two-pow-pos digits))
          ∙ add-mod_right (b.m_read + length values) (2 ^ digits)
          ∙ mod-eq_of_lt
              (omega (arith, sized, capacity-double digits capacity c.power c.representable))
