-- ===== src/Protocol/Json.antt =====
-- packages/protocol/src/json.ts: the JSON reader with budgets. A text is the list of its UTF-16 code
-- units, and the reader's index `i` is the rest of the text that it has not read. Numbers are
-- doubles in the source: their type and the conversion of a literal are parameters.
pub mod Literal
pub mod Reader
use get_exception.Base.{ℕ, List, Option, Bool}

pub record Limits : Type 0 where
  pub item : ℕ
  pub depth : ℕ
  pub fields : ℕ
  pub array : ℕ
  pub string : ℕ

abbrev pub limits : Limits
limits = record { item = 1048576; depth = 16; fields = 2048; array = 512; string = 4096 }

-- `Number(text)` for a matched literal; `none` where the result is not finite.
pub record Numbers : Type 1 where
  pub Number : Type 0
  pub of_text : List ℕ → Option Number

mutual
  pub data Json (N : Type 0) : Type 0 where
    null : Json N
    bool : Bool → Json N
    num : N → Json N
    str : List ℕ → Json N
    arr : Items N → Json N
    obj : Fields N → Json N

  pub data Items (N : Type 0) : Type 0 where
    nil : Items N
    cons : Json N → Items N → Items N

  pub data Fields (N : Type 0) : Type 0 where
    end : Fields N
    field : List ℕ → Json N → Fields N → Fields N
