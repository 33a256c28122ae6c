-- ===== src/Checks/Signatures.antt =====
-- `Slot` and `Signature` of tessercheck-py/tessercheck/domain/checks.py, and the policies that they are checked
-- against.
pub mod BlockNames
pub mod Policy
pub mod Records
pub mod Annotations
pub mod Laws
pub mod Classes
pub mod Made
pub mod Touched
use tesser_build.Prelude.{Str, List, ℤ, Result, ok, traverse, ◌>>=◌, Option, none, some}
use tesser_build.Checks.Names.{Names, names}
use tesser_build.Checks.Values.{
  FilePath, file_path, Line, line, Symbol, SymbolSpec, symbol, Text, text, optional_text,
}

pub record SlotSpec : Type 0 where
  pub name : Str
  pub block : Option Str
  pub touched : List Str
  pub symbol : Option SymbolSpec

-- A parameter or a result: its block, and the blocks its annotation touches.
pub record Slot : Type 0 where
  pub name : Text
  pub block : Option Text
  pub touched : List Text
  pub symbol : Option Symbol

abbrev if_given {ℓ κ} : {A : Type ℓ} {B : Type κ} → (A → Result B) → Option A → Result (Option B)
if_given f none = ok none
if_given f (some a) = do b ← f a; ok (some b)

unfoldable pub slot : SlotSpec → Result Slot
unfolding text optional_text traverse symbol
slot spec = do
  n ← text spec.name
  b ← optional_text spec.block
  t ← traverse text spec.touched
  s ← if_given symbol spec.symbol
  ok (record { name = n; block = b; touched = t; symbol = s })

pub record SignatureSpec : Type 0 where
  pub where_text : Str
  pub path : Str
  pub lineno : ℤ
  pub name : Str
  pub open_params : List Str
  pub params : List SlotSpec
  pub returns : Option SlotSpec
  pub leading : Option SlotSpec

-- The signature of a function, and where it stands. `open_params` are its `*args` and `**kwargs`.
pub record Signature : Type 0 where
  pub where_text : Text
  pub path : FilePath
  pub lineno : Line
  pub name : Text
  pub open_params : Names
  pub params : List Slot
  pub returns : Option Slot
  pub leading : Option Slot

unfoldable pub signature : SignatureSpec → Result Signature
unfolding text file_path line traverse slot names
signature spec = do
  w ← text spec.where_text
  p ← file_path spec.path
  l ← line spec.lineno
  n ← text spec.name
  ps ← traverse slot spec.params
  r ← if_given slot spec.returns
  f ← if_given slot spec.leading
  ok (record {
    where_text = w;
    path = p;
    lineno = l;
    name = n;
    open_params = names spec.open_params;
    params = ps;
    returns = r;
    leading = f;
  })
