-- ===== src/Device/Port.antt =====
-- emulator/ioport.h and .cc: eight pins. The callbacks that are registered act on a world W of what
-- is wired to the pins; they are called in their order.
use hd6301_thing.Common.{ℕ, ◌≡◌, refl, bit_and, bit_or, List, [], ◌∷◌, ◌++◌, not8}

-- The registers and the callbacks; the name is for logging only.
pub record IoPort (W : Type 0) : Type 0 where
  pub output_change_callbacks : List (ℕ → W → W)
  pub input_change_callbacks : List (ℕ → W → W)
  pub data_direction : ℕ
  pub output_register : ℕ
  pub input_register : ℕ

module _ {W : Type 0} where
  unfoldable pub notify : List (ℕ → W → W) → ℕ → W → W
  notify [] value w = w
  notify (f ∷ fs) value w = notify fs value (f value w)

  unfoldable pub read_input_register : IoPort W → ℕ
  read_input_register port =
      bit_or port.input_register (bit_and port.output_register port.data_direction)

  unfoldable pub read_output_register : IoPort W → ℕ
  read_output_register port = port.output_register

  unfoldable pub write_output_register : ℕ → IoPort W × W → IoPort W × W
  unfolding notify
  write_output_register value (port, w) = (
    record port { output_register = value },
    notify port.output_change_callbacks (bit_and value port.data_direction) w,
  )

  unfoldable pub provide_inputs : ℕ → ℕ → IoPort W × W → IoPort W × W
  unfolding notify
  provide_inputs value mask (port, w) =
      let input = bit_or (bit_and port.input_register (not8 mask)) value in
      (record port { input_register = input }, notify port.input_change_callbacks input w)

  unfoldable pub write_data_direction_register : ℕ → IoPort W → IoPort W
  write_data_direction_register direction_mask port = record port {
    data_direction = direction_mask;
  }

  unfoldable pub read_data_direction_register : IoPort W → ℕ
  read_data_direction_register port = port.data_direction

  unfoldable pub register_output_change_callback : (ℕ → W → W) → IoPort W → IoPort W
  register_output_change_callback f port = record port {
    output_change_callbacks = port.output_change_callbacks ++ f ∷ [];
  }

  unfoldable pub register_input_change_callback : (ℕ → W → W) → IoPort W → IoPort W
  register_input_change_callback f port = record port {
    input_change_callbacks = port.input_change_callbacks ++ f ∷ [];
  }

  notify-append :
      (fs : List (ℕ → W → W)) (f : ℕ → W → W) (value : ℕ) (w : W)
      → notify (fs ++ f ∷ []) value w ≡ f value (notify fs value w)
  unfolding notify
  notify-append [] f value w = refl
  notify-append (g ∷ fs) f value w = notify-append fs f value (g value w)

  -- A callback registered last for output changes runs last at a write, with the value masked by the
  -- data direction; the registers afterwards are those without it.
  pub write_output_register-register_output_change_callback :
      (f : ℕ → W → W) (value : ℕ) (port : IoPort W) (w : W)
      → let (port', w') = write_output_register value (port, w) in
        write_output_register value (register_output_change_callback f port, w)
        ≡ (register_output_change_callback f port', f (bit_and value port.data_direction) w')
  unfolding write_output_register register_output_change_callback
  write_output_register-register_output_change_callback f value port w = λ i. (
    record port {
      output_register = value;
      output_change_callbacks = port.output_change_callbacks ++ f ∷ [];
    },
    notify-append port.output_change_callbacks f (bit_and value port.data_direction) w i,
  )
