-- ===== src/LogTable.antt =====
-- The table of `calc_log` (fixed-point.h): entry i is log2 (1 + i / 256) in units of 2 ^ -24.
use fide.Base.{
  ℕ, zero, suc, ◌≤◌, ◌<◌, ◌^◌, ◌≡◌, refl, Bool, true, ◌&&◌, List, [], ◌∷◌, arith, ltb, leb, length,
  get_or,
}

unfoldable pub log_table : List ℕ
log_table =
    0 ∷ 94364 ∷ 188362 ∷ 281996 ∷ 375269 ∷ 468184 ∷ 560744 ∷ 652952 ∷ 744809 ∷ 836319 ∷ 927485
    ∷ 1018308 ∷ 1108792 ∷ 1198939 ∷ 1288751 ∷ 1378232 ∷ 1467382 ∷ 1556206 ∷ 1644705 ∷ 1732881
    ∷ 1820738 ∷ 1908276 ∷ 1995500 ∷ 2082410 ∷ 2169009 ∷ 2255299 ∷ 2341283 ∷ 2426962 ∷ 2512339
    ∷ 2597416 ∷ 2682195 ∷ 2766679 ∷ 2850868 ∷ 2934765 ∷ 3018373 ∷ 3101693 ∷ 3184727 ∷ 3267477
    ∷ 3349946 ∷ 3432134 ∷ 3514044 ∷ 3595678 ∷ 3677037 ∷ 3758124 ∷ 3838940 ∷ 3919487 ∷ 3999767
    ∷ 4079782 ∷ 4159533 ∷ 4239022 ∷ 4318251 ∷ 4397221 ∷ 4475935 ∷ 4554393 ∷ 4632598 ∷ 4710551
    ∷ 4788254 ∷ 4865708 ∷ 4942915 ∷ 5019877 ∷ 5096595 ∷ 5173070 ∷ 5249304 ∷ 5325299 ∷ 5401057
    ∷ 5476578 ∷ 5551863 ∷ 5626916 ∷ 5701736 ∷ 5776326 ∷ 5850687 ∷ 5924820 ∷ 5998727 ∷ 6072408
    ∷ 6145866 ∷ 6219102 ∷ 6292117 ∷ 6364912 ∷ 6437489 ∷ 6509849 ∷ 6581994 ∷ 6653924 ∷ 6725640
    ∷ 6797145 ∷ 6868440 ∷ 6939525 ∷ 7010401 ∷ 7081071 ∷ 7151535 ∷ 7221795 ∷ 7291851 ∷ 7361705
    ∷ 7431358 ∷ 7500811 ∷ 7570066 ∷ 7639123 ∷ 7707983 ∷ 7776648 ∷ 7845119 ∷ 7913396 ∷ 7981482
    ∷ 8049377 ∷ 8117081 ∷ 8184597 ∷ 8251925 ∷ 8319066 ∷ 8386022 ∷ 8452793 ∷ 8519380 ∷ 8585784
    ∷ 8652007 ∷ 8718049 ∷ 8783912 ∷ 8849595 ∷ 8915101 ∷ 8980430 ∷ 9045583 ∷ 9110562 ∷ 9175366
    ∷ 9239997 ∷ 9304456 ∷ 9368744 ∷ 9432862 ∷ 9496810 ∷ 9560590 ∷ 9624202 ∷ 9687648 ∷ 9750927
    ∷ 9814042 ∷ 9876992 ∷ 9939779 ∷ 10002404 ∷ 10064867 ∷ 10127169 ∷ 10189311 ∷ 10251295 ∷ 10313119
    ∷ 10374787 ∷ 10436297 ∷ 10497652 ∷ 10558851 ∷ 10619897 ∷ 10680788 ∷ 10741527 ∷ 10802114
    ∷ 10862549 ∷ 10922834 ∷ 10982970 ∷ 11042956 ∷ 11102794 ∷ 11162484 ∷ 11222027 ∷ 11281425
    ∷ 11340677 ∷ 11399784 ∷ 11458747 ∷ 11517567 ∷ 11576245 ∷ 11634780 ∷ 11693174 ∷ 11751428
    ∷ 11809542 ∷ 11867516 ∷ 11925353 ∷ 11983051 ∷ 12040612 ∷ 12098036 ∷ 12155325 ∷ 12212478
    ∷ 12269497 ∷ 12326381 ∷ 12383133 ∷ 12439751 ∷ 12496238 ∷ 12552593 ∷ 12608817 ∷ 12664910
    ∷ 12720874 ∷ 12776709 ∷ 12832415 ∷ 12887994 ∷ 12943445 ∷ 12998769 ∷ 13053968 ∷ 13109040
    ∷ 13163988 ∷ 13218811 ∷ 13273510 ∷ 13328086 ∷ 13382539 ∷ 13436870 ∷ 13491079 ∷ 13545167
    ∷ 13599135 ∷ 13652982 ∷ 13706710 ∷ 13760319 ∷ 13813810 ∷ 13867182 ∷ 13920437 ∷ 13973575
    ∷ 14026597 ∷ 14079503 ∷ 14132293 ∷ 14184969 ∷ 14237530 ∷ 14289977 ∷ 14342311 ∷ 14394532
    ∷ 14446641 ∷ 14498637 ∷ 14550522 ∷ 14602296 ∷ 14653960 ∷ 14705514 ∷ 14756958 ∷ 14808293
    ∷ 14859519 ∷ 14910637 ∷ 14961647 ∷ 15012550 ∷ 15063347 ∷ 15114037 ∷ 15164620 ∷ 15215099
    ∷ 15265472 ∷ 15315741 ∷ 15365906 ∷ 15415967 ∷ 15465924 ∷ 15515779 ∷ 15565531 ∷ 15615181
    ∷ 15664729 ∷ 15714177 ∷ 15763523 ∷ 15812769 ∷ 15861915 ∷ 15910961 ∷ 15959909 ∷ 16008757
    ∷ 16057507 ∷ 16106159 ∷ 16154714 ∷ 16203171 ∷ 16251532 ∷ 16299796 ∷ 16347964 ∷ 16396036
    ∷ 16444013 ∷ 16491895 ∷ 16539683 ∷ 16587376 ∷ 16634976 ∷ 16682482 ∷ 16729895 ∷ []

-- The entries of a list ascend from `lo` and stay below `hi`.
ascends : ℕ → ℕ → List ℕ → Bool
ascends lo hi [] = true
ascends lo hi (x ∷ xs) = leb lo x && ltb x hi && ascends x hi xs

module _ (hi : ℕ) where
  ascends_bounds :
      (lo i : ℕ) (xs : List ℕ)
      → ascends lo hi xs ≡ true
      → i < length xs
      → (lo ≤ get_or xs i 0) × (get_or xs i 0 < hi)
  unfolding ascends
  ascends_bounds lo i [] h b = absurd (omega arith)
  ascends_bounds lo zero (x ∷ xs) h b = ground arith
  ascends_bounds lo (suc i) (x ∷ xs) h b = ground (arith, ascends_bounds x i xs)

  ascends_mono :
      (lo i j : ℕ) (xs : List ℕ)
      → ascends lo hi xs ≡ true
      → i ≤ j
      → j < length xs
      → get_or xs i 0 ≤ get_or xs j 0
  unfolding ascends
  ascends_mono lo i j [] h le b = absurd (omega arith)
  ascends_mono lo zero zero (x ∷ xs) h le b = ground arith
  ascends_mono lo zero (suc j) (x ∷ xs) h le b = ground (arith, ascends_bounds x j xs)
  ascends_mono lo (suc i) zero (x ∷ xs) h le b = absurd (omega arith)
  ascends_mono lo (suc i) (suc j) (x ∷ xs) h le b = ground (arith, ascends_mono x i j xs)

table_ascends : ascends 0 (2 ^ 24) log_table ≡ true
unfolding ascends log_table
table_ascends = refl

length-log_table : length log_table ≡ 256
unfolding log_table
length-log_table = refl

pub log_table-lt : (i : ℕ) → i < 256 → get_or log_table i 0 < 2 ^ 24
log_table-lt i h =
    omega
      (arith, ascends_bounds (2 ^ 24) 0 i log_table table_ascends (omega (arith, length-log_table)))

pub log_table_mono : (i j : ℕ) → i ≤ j → j < 256 → get_or log_table i 0 ≤ get_or log_table j 0
log_table_mono i j le h =
    ascends_mono (2 ^ 24) 0 i j log_table table_ascends le (omega (arith, length-log_table))

pub log_table-zero : get_or log_table 0 0 ≡ 0
unfolding log_table
log_table-zero = refl
