-- ===== src/Nuid/Tests.antt =====
-- The maker of ids on concrete draws, and the theorems at inputs that meet their hypotheses.
use nats_deno.Base.{◌≡◌, ◌≢◌, refl, true, [], ◌∷◌, codes, arith}
use nats_deno.Buffer.{overwrite}
use nats_deno.Nuid.{Draw, Nuid, digit, new_nuid, next, set_pre_from, fill_from}
use nats_deno.Nuid.Laws.{IsReady}
use nats_deno.Nuid.Ids.{after, after-distinct}

abbrev a_draw : Draw
a_draw = record {
  cbuf = 0 ∷ 1 ∷ 2 ∷ 35 ∷ 36 ∷ 37 ∷ 255 ∷ 7 ∷ 8 ∷ 9 ∷ 10 ∷ 11 ∷ [];
  seq = 46600;
  inc = 56;
}

abbrev running : Nuid
running = record { buf = codes "012Z013789AB0000000ZYG"; seq = 46600; inc = 56; inited = true }

first_id : (next a_draw a_draw new_nuid).0 ≡ codes "012Z013789AB0000001000"
unfolding next fill_from overwrite set_pre_from digit
first_id = refl

running-IsReady : IsReady running
unfolding digit
running-IsReady = (
  refl,
  refl,
  (
    (0, omega arith, refl),
    (
      (1, omega arith, refl),
      (
        (2, omega arith, refl),
        (
          (35, omega arith, refl),
          (
            (0, omega arith, refl),
            (
              (1, omega arith, refl),
              (
                (3, omega arith, refl),
                (
                  (7, omega arith, refl),
                  (
                    (8, omega arith, refl),
                    (
                      (9, omega arith, refl),
                      ((10, omega arith, refl), ((11, omega arith, refl), tt)),
                    ),
                  ),
                ),
              ),
            ),
          ),
        ),
      ),
    ),
  ),
)

after-distinct_example : (after a_draw 1 running).0 ≢ (after a_draw 3 running).0
after-distinct_example =
    after-distinct a_draw 1 3 running running-IsReady (omega arith) (omega arith) (omega arith)
