-- ===== src/Sha256/Rounds.antt =====
-- The unrolled loop of core/sha256.c against the rounds of the standard.
use client.Base.{ℕ, ◌+◌, ◌≡◌, refl, get_or, List}
use client.Sha256.{Registers, word, temp_0, temp_1, constant, eight_rounds}

-- A round of FIPS 180-4: the registers move up by one.
abbrev pub round : List ℕ → ℕ → Registers → Registers
round w i r =
    let t = temp_0 r.e r.f r.g r.h (constant i) (get_or w i 0) in
    record {
      a = word (t + temp_1 r.a r.b r.c);
      b = r.a;
      c = r.b;
      d = r.c;
      e = word (r.d + t);
      f = r.e;
      g = r.f;
      h = r.g;
    }

-- One pass of the unrolled loop, in which the registers stay and the arguments of `compress`
-- rotate, is eight rounds of the standard.
pub eight_rounds-round :
    (w : List ℕ) (i : ℕ) (r : Registers)
    → eight_rounds w i r
      ≡ round w (i + 7) (
          round w (i + 6) (
            round w (i + 5) (
              round w
                (i + 4)
                (round w (i + 3) (round w (i + 2) (round w (i + 1) (round w (i + 0) r)))))))
unfolding eight_rounds
eight_rounds-round w i r = refl
