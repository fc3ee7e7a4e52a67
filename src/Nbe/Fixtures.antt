-- ===== src/Nbe/Fixtures.antt =====
-- Concrete frames, clients and boilers for the examples and tests of the package nbe.
use boiler_mate.Prelude.{
  ◌*◌, ℕ, ◌<◌, ◌^◌, ◌%◌, ◌≡◌, refl, ◌∙◌, ap, true, [], ◌∷◌, Bytes, codes, some, none, arith,
  All-replicate, replicate, length-replicate,
}
use boiler_mate.Prelude.Int.{pos}
use boiler_mate.Go.BigInt.{exp}
use boiler_mate.Go.Decimal.{decimal}
use boiler_mate.Nbe.Types.{Runtime, int64, text, scalar, get_setup_function, set_setup_function}
use boiler_mate.Nbe.Request.{NbeRequest, PublicKey, zero_time}
use boiler_mate.Nbe.Response.{NbeResponse}
use boiler_mate.Nbe.Mock.{MockBoiler, PrivateKey}
use boiler_mate.Nbe.Mock.Decryption.{IsKeyPair, IsRandom}
use boiler_mate.Nbe.Client.{Nbe, Call}
use boiler_mate.Prelude.{◌++◌, All}
use boiler_mate.Go.Format.{format_int}
use boiler_mate.Go.Split.{join}
use boiler_mate.Go.Parse.{parse_int}
use boiler_mate.Nbe.Action.{ok}
use boiler_mate.Nbe.Payload.{serialize_payload, show_scalar}
use boiler_mate.Nbe.Payload.RoundTrip.{IsPlain}
use boiler_mate.Nbe.Request.RoundTrip.{Fits as RequestFits}
use boiler_mate.Nbe.Response
use boiler_mate.Nbe.Response.RoundTrip.{Fits, unpack-pack_response}
use native.Mathlib.Nat.{le_refl, pow-suc, pow-zero, mod-eq_of_lt}

-- Floats as whole numbers, whose text is never read as a float.
abbrev pub whole : Runtime ℕ
whole = record {
  parse_float = λ s. none;
  show_float = decimal;
  format_float = decimal;
  lower_wide = λ s. s;
}

abbrev pub answer_frame : NbeResponse ℕ
answer_frame = record {
  app_id = codes "ABCDEFGHIJKL";
  controller_id = codes "MNOPQR";
  function = get_setup_function;
  seq_no = pos 7;
  status = 0;
  payload =
      (codes "temp", scalar (int64 (pos 65))) ∷ (codes "name", scalar (text (codes "pellet"))) ∷ [];
}

abbrev pub ask_frame : NbeRequest
ask_frame = record {
  app_id = codes "ABCDEFGHIJKL";
  controller_id = codes "MNOPQR";
  rsa_key = none;
  function = get_setup_function;
  seq_no = pos 7;
  pin_code = [];
  timestamp = zero_time;
  payload = codes "boiler.*";
}

-- The identity is a key pair: exponent 1 on both sides.
abbrev pub public : PublicKey
public = record { modulus = 256 ^ 64; exponent = 1 }

abbrev pub private : PrivateKey
private = record { modulus = 256 ^ 64; secret = 1 }

exp-one : (m n : ℕ) → m < n → exp m 1 n ≡ m
unfolding exp
exp-one m n h =
    ap (λ k. k % n) (pow-suc m 0 ∙ rw pow-zero (let e : 1 * m ≡ m = omega arith in e))
    ∙ mod-eq_of_lt h

pub pair : IsKeyPair public private
pair = record {
  same_modulus = refl;
  exponent_pos = omega arith;
  room = le_refl (256 ^ 64);
  inverts = λ m h. rw (exp-one m (256 ^ 64) h) (exp-one m (256 ^ 64) h);
}

abbrev pub sevens : ℕ → Bytes
sevens k = replicate k 7

pub sevens-IsRandom : IsRandom sevens
sevens-IsRandom = record {
  length_is = λ k. length-replicate k 7;
  bytes = λ k. All-replicate (λ b. b < 256) k 7 (omega arith);
}

abbrev pub set_frame : NbeRequest
set_frame = record {
  app_id = codes "ABCDEFGHIJKL";
  controller_id = codes "MNOPQR";
  rsa_key = some public;
  function = set_setup_function;
  seq_no = pos 8;
  pin_code = codes "0123456789";
  timestamp = zero_time;
  payload = codes "boiler.temp=70";
}

abbrev pub boiler : MockBoiler ℕ
boiler = record {
  serial = codes "12345";
  settings = (codes "boiler", (codes "temp", int64 (pos 65)) ∷ []) ∷ [];
  rsa_private_key = private;
  rsa_key_base64 = codes "a2V5";
}

abbrev pub client : Nbe ℕ
client = record {
  app_id = codes "ABCDEFGHIJKL";
  controller_id = codes "MNOPQR";
  serial = codes "12345";
  ip_address = codes "192.168.1.100";
  seq_no = pos 6;
  pin_code = codes "0123456789";
  rsa_key = some public;
  queue = [];
}

abbrev pub call : Call
call = record { now = pos 1700000000; random = sevens; resolves = true; written = true }

pub answer_frame-Fits : Fits whole 1 7 answer_frame
unfolding serialize_payload decimal join format_int
answer_frame-Fits = record {
  app_ascii = omega arith;
  app_short = omega arith;
  controller_ascii = omega arith;
  controller_short = omega arith;
  function_is = refl;
  function_two = omega arith;
  seq_no_is = refl;
  seq_no_two = omega arith;
  status_one = omega arith;
  payload_three = omega arith;
}

pub answer_frame-IsPlain : All (IsPlain whole) answer_frame.payload
unfolding show_scalar format_int decimal parse_int
answer_frame-IsPlain =
    ((omega arith, omega arith, omega arith), ((omega arith, omega arith, (refl, refl)), tt))

pub answer_unpacked :
    Response.unpack whole ((Response.pack whole answer_frame []).1 ++ codes "rest")
    ≡ (ok answer_frame, codes "rest")
answer_unpacked =
    (unpack-pack_response whole answer_frame-Fits refl refl refl answer_frame-IsPlain
      ((refl, tt), (tt, tt)) (codes "rest")).1

pub ask_frame-Fits : RequestFits (pos 1700000000) 1 7 1700000000 ask_frame
ask_frame-Fits = record {
  app_ascii = omega arith;
  app_some = omega arith;
  app_short = omega arith;
  controller_ascii = omega arith;
  controller_some = omega arith;
  controller_short = omega arith;
  function_is = refl;
  function_two = omega arith;
  seq_no_is = refl;
  seq_no_two = omega arith;
  pin_ascii = omega arith;
  pin_short = omega arith;
  stamp_is = refl;
  stamp_ten = omega arith;
  payload_some = omega arith;
  payload_three = omega arith;
}

pub set_frame-Fits : RequestFits (pos 1700000000) 2 8 1700000000 set_frame
set_frame-Fits = record {
  app_ascii = omega arith;
  app_some = omega arith;
  app_short = omega arith;
  controller_ascii = omega arith;
  controller_some = omega arith;
  controller_short = omega arith;
  function_is = refl;
  function_two = omega arith;
  seq_no_is = refl;
  seq_no_two = omega arith;
  pin_ascii = omega arith;
  pin_short = omega arith;
  stamp_is = refl;
  stamp_ten = omega arith;
  payload_some = omega arith;
  payload_three = omega arith;
}
