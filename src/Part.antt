-- ===== src/Part.antt =====
-- The state of one device inside the world of all devices: what a callback that captures `this`
-- can reach. The laws say that it is one object, with no other state in it.
use hd6301_thing.Common.{◌≡◌, refl}

pub record Part (W : Type 0) (A : Type 0) : Type 0 where
  pub view : W → A
  pub put : A → W → W
  pub view-put : (a : A) (w : W) → view (put a w) ≡ a
  pub put-view : (w : W) → put (view w) w ≡ w
  pub put-put : (a b : A) (w : W) → put a (put b w) ≡ put a w

-- A world that is one device.
abbrev pub whole : {A : Type 0} → Part A A
whole = record {
  view = λ w. w;
  put = λ a w. a;
  view-put = λ a w. refl;
  put-view = λ w. refl;
  put-put = λ a b w. refl;
}
