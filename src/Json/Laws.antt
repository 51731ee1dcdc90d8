-- ===== src/Json/Laws.antt =====
-- The order of numbers, as comparators use it.
use kprobe.Base.{◌≡◌, ◌≢◌, refl, true, false, not, arith}
use kprobe.Json.{Num, nan, pos_inf, neg_inf, pos, negsuc, lt_num}

pub lt_num_asymm : (a b : Num) → not (lt_num b a) ≡ false → not (lt_num a b) ≡ true
unfolding lt_num
lt_num_asymm nan b h = refl
lt_num_asymm pos_inf b h = refl
lt_num_asymm neg_inf b h = ground arith
lt_num_asymm (pos a) b h = ground arith
lt_num_asymm (negsuc a) b h = ground arith

-- Only the middle one must be a number: a NaN at an end compares with nothing.
pub lt_num_trans :
    (a b c : Num)
    → b ≢ nan
    → not (lt_num b a) ≡ true
    → not (lt_num c b) ≡ true
    → not (lt_num c a) ≡ true
unfolding lt_num
lt_num_trans a nan c n h k = absurd (n refl)
lt_num_trans a pos_inf c n h k = ground arith
lt_num_trans a neg_inf c n h k = ground arith
lt_num_trans a (pos b) c n h k = ground arith
lt_num_trans a (negsuc b) c n h k = ground arith
