-- ===== src/Zod.antt =====
-- The schema values that the program builds with the library zod: a record of the calls, as the
-- program makes them and reads them back from `_def`. What a schema accepts is the library's.
use vigor3912s_mcp.Common.{ℕ, String, Bool, true, List, [], ◌∷◌, Text, lit, map}
use vigor3912s_mcp.Values.{Value, Items, nil, cons, str, arr, num}

-- The bounds of `min` and `max`; `negsuc n` is -(n + 1).
pub data ℤ : Type 0 where
  pos negsuc : ℕ → ℤ

-- `min`, `max`, `ip` and `regex` on texts. A pattern stands for the texts that it matches.
pub data TextCheck : Type 0 where
  at_least at_most : ℕ → TextCheck
  ip : ℕ → TextCheck
  regex : (Text → Bool) → TextCheck

pub data NumberCheck : Type 0 where
  int positive : NumberCheck
  least most : ℤ → NumberCheck

pub data SizeCheck : Type 0 where
  shortest longest : ℕ → SizeCheck

mutual
  pub data Zod : Type 0 where
    string : List TextCheck → Zod
    number : List NumberCheck → Zod
    boolean unknown undefined_type : Zod
    enum : List Text → Zod
    literal : Value → Zod
    union : Options → Zod
    discriminated_union : String → Options → Zod
    array : Zod → List SizeCheck → Zod
    object strict_object : Shape → Zod
    optional : Zod → Zod
    refine : Zod → (Value → Bool) → Zod
    refine_with_number : Zod → ((Text → ℕ) → Value → Bool) → Zod
    describe : Text → Zod → Zod

  pub data Options : Type 0 where
    no_option : Options
    option : Zod → Options → Options

  -- `ZodRawShape` as the schema of an object holds it.
  pub data Shape : Type 0 where
    no_key : Shape
    key : String → Zod → Shape → Shape

-- The calls that the program makes most often: whole numbers between bounds, one of some names, and
-- one of some numbers.
abbrev pub int_between : ℕ → ℕ → Zod
int_between low high = number (int ∷ least (pos low) ∷ most (pos high) ∷ [])

abbrev pub one_of : List String → Zod
one_of names = enum (map (λ (name : String). lit name) names)

abbrev pub literals : List String → Options
literals [] = no_option
literals (n ∷ numbers) = option (literal (num (lit n))) (literals numbers)

abbrev pub one_of_numbers : List String → Zod
one_of_numbers numbers = union (literals numbers)

-- A test on texts, and one on arrays of texts, as a test on values; `refine` is only asked about
-- values of the type that it refines. The test of `refine_with_number` takes JavaScript's `Number`.
abbrev pub of_text : (Text → Bool) → Value → Bool
of_text p (str s) = p s
of_text p v = true

abbrev pub texts_in : Items → List Text
texts_in nil = []
texts_in (cons (str s) xs) = s ∷ texts_in xs
texts_in (cons v xs) = texts_in xs

abbrev pub of_texts : (List Text → Bool) → Value → Bool
of_texts p (arr xs) = p (texts_in xs)
of_texts p v = true
