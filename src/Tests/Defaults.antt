-- ===== src/Tests/Defaults.antt =====
-- The default values of a message with a field of each kind, at a concrete place.
use app_card.Base.{◌-◌, inr, refl, List, [], ◌∷◌, ◌^◌, arith}
use app_card.Nanopb.Pb.{PbField}
use app_card.Nanopb.SetDefaults.{pb_message_set_to_defaults}
use app_card.Nanopb.SetDefaults.Layout.{LaidOut, Leaves}
use app_card.Nanopb.SetDefaults.Defaults.{IsPlaced, Placed, EachField, Default}
use app_card.Nanopb.SetDefaults.Sets.{pb_message_set_to_defaults-Default}
use app_card.Tests.Decode.{rt, number_field, last_field, number-IsTable}

-- A number with a flag, an array with a count, a submessage with the table at 8, an allocated array
-- and a number with a default value at 4096.
abbrev optional_field : PbField
optional_field = record number_field { type = 0x12; data_offset = 4; size_offset = 2 ^ 32 - 4 }

abbrev counted_field : PbField
counted_field = record optional_field { tag = 2; type = 0x22; array_size = 2 }

abbrev part_field : PbField
part_field = record number_field { tag = 3; type = 0x08; ptr = 8 }

abbrev allocated_field : PbField
allocated_field = record optional_field { tag = 4; type = 0xa2 }

abbrev given_field : PbField
given_field = record number_field { tag = 5; ptr = 4096 }

abbrev kinds : List PbField
kinds =
    optional_field ∷ counted_field ∷ part_field ∷ allocated_field ∷ given_field ∷ last_field ∷ []

number-IsPlaced : IsPlaced 64 104 84 number_field
number-IsPlaced = record {
  no_extension = refl;
  no_oneof = refl;
  fits = omega arith;
  flag = λ o. absurd (ground (arith, o));
  count = λ r. absurd (ground (arith, r));
  constant = λ _ given. absurd (ground (arith, given));
}

optional-Placed : Placed rt 64 104 2 64 optional_field
optional-Placed = (
  record {
    no_extension = refl;
    no_oneof = refl;
    fits = omega arith;
    flag = λ _ _. (omega arith, omega arith);
    count = λ r. absurd (ground (arith, r));
    constant = λ _ given. absurd (ground (arith, given));
  },
  λ _ _ sub. absurd (ground (arith, sub)),
)

counted-Placed : Placed rt 64 104 2 72 counted_field
counted-Placed = (
  record {
    no_extension = refl;
    no_oneof = refl;
    fits = omega arith;
    flag = λ o. absurd (ground (arith, o));
    count = λ _. (omega arith, omega arith);
    constant = λ _ given. absurd (ground (arith, given));
  },
  λ _ _ sub. absurd (ground (arith, sub)),
)

part-Placed : Placed rt 64 104 2 84 part_field
part-Placed = (
  record {
    no_extension = refl;
    no_oneof = refl;
    fits = omega arith;
    flag = λ o. absurd (ground (arith, o));
    count = λ r. absurd (ground (arith, r));
    constant = λ plain. absurd (ground (arith, plain));
  },
  λ _ _ _. record {
    fields = number_field ∷ [];
    end = last_field;
    whole = refl;
    is_table = number-IsTable;
    each = ((number-IsPlaced, λ _ _ sub. absurd (ground (arith, sub))), tt);
    inside = omega arith;
  },
)

allocated-Placed : Placed rt 64 104 2 88 allocated_field
allocated-Placed = (
  record {
    no_extension = refl;
    no_oneof = refl;
    fits = omega arith;
    flag = λ o. absurd (ground (arith, o));
    count = λ _. (omega arith, omega arith);
    constant = λ _ given. absurd (ground (arith, given));
  },
  λ static. absurd (ground (arith, static)),
)

given-Placed : Placed rt 64 104 2 100 given_field
given-Placed = (
  record {
    no_extension = refl;
    no_oneof = refl;
    fits = omega arith;
    flag = λ o. absurd (ground (arith, o));
    count = λ r. absurd (ground (arith, r));
    constant = λ _ _. inr (omega arith);
  },
  λ _ _ sub. absurd (ground (arith, sub)),
)

kinds-LaidOut : LaidOut (Placed rt 64 104 2) kinds 64 104
kinds-LaidOut = record {
  fields = optional_field ∷ counted_field ∷ part_field ∷ allocated_field ∷ given_field ∷ [];
  end = last_field;
  whole = refl;
  is_table = record {
    tags = (ground arith, (ground arith, (ground arith, (ground arith, (ground arith, tt)))));
    last = refl;
  };
  each = (optional-Placed, (counted-Placed, (part-Placed, (allocated-Placed, (given-Placed, tt)))));
  inside = omega arith;
}

pb_message_set_to_defaults-Default_example :
    Leaves
      (pb_message_set_to_defaults rt 2 0 kinds 64)
      (EachField (Default rt (λ a. 255) 2) kinds 64)
      64
      104
      (λ a. 255)
pb_message_set_to_defaults-Default_example =
    pb_message_set_to_defaults-Default rt 2 0 64 104 kinds (λ a. 255) kinds-LaidOut
