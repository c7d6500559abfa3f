-- ===== src/Expr/Access.antt =====
-- What a storage expression means: a head and a chain of `.name` and `[expression]` steps, its
-- text, and the dicts that stand for it. The parser is proved against this grammar.
use contract_abstract.Prelude.{◌<◌, ◌≢◌, Text, [], ◌∷◌, ◌++◌, length}
use contract_abstract.Expr.Syntax.{Expr, Name, Child, node, str, sub, absent, present}
use contract_abstract.Expr.Scan.{dot, lbrack, rbrack}

mutual
  pub data Access : Type 0 where
    access : Text → Steps → Access

  pub data Steps : Type 0 where
    done : Steps
    member : Text → Steps → Steps
    index : Access → Steps → Steps

-- the text, as a storage expression is written in the manifest
unfoldable mutual
  pub show : Access → Text
  show (access head steps) = head ++ show_steps steps

  pub show_steps : Steps → Text
  show_steps done = []
  show_steps (member name steps) = dot ∷ name ++ show_steps steps
  show_steps (index a steps) = lbrack ∷ show a ++ rbrack ∷ show_steps steps

-- What an index is named by: a lone name is a str, a name with steps is the dict of them.
abbrev pub index_name : Text → Steps → Expr → Name
index_name head done e = str head
index_name head (member n steps) e = sub e
index_name head (index a steps) e = sub e

-- The nested dicts of `name` followed by the steps: what follows an index hangs below that index.
unfoldable pub nest : Name → Steps → Expr
nest name done = node name absent absent
nest name (member n steps) = node name absent (present (nest (str n) steps))
nest name (index (access head inner) steps) =
    node name (present (nest (index_name head inner (nest (str head) inner)) steps)) absent

unfoldable pub to_expr : Access → Expr
to_expr (access head steps) = nest (str head) steps

unfoldable pub to_child : Steps → Child
to_child done = absent
to_child (member n steps) = present (nest (str n) steps)
to_child (index (access head inner) steps) =
    present (nest (index_name head inner (nest (str head) inner)) steps)

-- no `.`, `[` or `]`
abbrev pub IsPlain : Text → Type 0
IsPlain [] = Unit
IsPlain (c ∷ cs) = (c ≢ dot) × (c ≢ lbrack) × (c ≢ rbrack) × IsPlain cs

-- Names are plain, and a head is not empty.
abbrev mutual
  pub IsWritten : Access → Type 0
  IsWritten (access head steps) = (0 < length head) × IsPlain head × AreWritten steps

  pub AreWritten : Steps → Type 0
  AreWritten done = Unit
  AreWritten (member name steps) = IsPlain name × AreWritten steps
  AreWritten (index a steps) = IsWritten a × AreWritten steps
