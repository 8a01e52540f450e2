-- ===== src/Params/Table.antt =====
-- The table of options that getopt_long is given.
use fide.Base.{◌≡◌, ◌≢◌, refl, List, [], ◌∷◌, ◌++◌, map, none, some, arith, length}
use fide.Params.{LongOption, OptionWrapper, count_options, copy_options, option_wrappers_to_options}

-- The entries before the one without a name.
pub data AllNamed : List OptionWrapper → Type 0 where
  no_more : AllNamed []
  named :
      (w : OptionWrapper) (ws : List OptionWrapper)
      → w.long.name ≢ none
      → AllNamed ws
      → AllNamed (w ∷ ws)

abbrev pub long_of : OptionWrapper → LongOption
long_of w = w.long

count_options-length :
    (ws rest : List OptionWrapper) (last : OptionWrapper)
    → AllNamed ws
    → last.long.name ≡ none
    → count_options (ws ++ last ∷ rest) ≡ some (length ws)
unfolding count_options
count_options-length [] rest last n h = ground arith
count_options-length (w ∷ ws) rest last (named _ _ a n) h =
    ground (arith, count_options-length ws rest last n h)

copy_options-length :
    (ws rest : List OptionWrapper) → copy_options (length ws) (ws ++ rest) ≡ some (map long_of ws)
unfolding copy_options
copy_options-length [] rest = refl
copy_options-length (w ∷ ws) rest = ground (arith, copy_options-length ws rest)

-- The table that is made has the entries before the first without a name, and not that entry:
-- it has no end that getopt_long could find.
pub option_wrappers_to_options_lem :
    (ws rest : List OptionWrapper) (last : OptionWrapper)
    → AllNamed ws
    → last.long.name ≡ none
    → option_wrappers_to_options (ws ++ last ∷ rest) ≡ some (map long_of ws)
unfolding option_wrappers_to_options
option_wrappers_to_options_lem ws rest last n h =
    ground (arith, count_options-length ws rest last n h, copy_options-length ws (last ∷ rest))
