-- ===== src/Framebuffer/Floats.antt =====
-- The floating-point numbers of src/core/framebuffer.c are a parameter: a type with its operations,
-- none of which is assumed to obey a law.
use de_mo_d.Prelude.{ℕ, Bool, ℤ}

pub record Floats : Type 1 where
  pub Float : Type 0
  -- The conversions from and to `int`, and to `uint8_t`.
  pub of_int : ℤ → Float
  pub to_int : Float → ℤ
  pub to_byte : Float → ℕ
  pub add : Float → Float → Float
  pub sub : Float → Float → Float
  pub mul : Float → Float → Float
  pub div : Float → Float → Float
  pub minus : Float → Float
  -- `fabsf` and `sqrtf`
  pub fabs : Float → Float
  pub root : Float → Float
  pub less : Float → Float → Bool
  pub at_most : Float → Float → Bool
  -- A literal: its digits, and how many of them are behind the point.
  pub literal : ℕ → ℕ → Float
