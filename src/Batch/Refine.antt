-- ===== src/Batch/Refine.antt =====
-- A batch behind its operations: a table of keys that the calls of a client update.
use level_db.Prelude.{
  ℕ, ◌+◌, ◌^◌, ◌≤◌, ◌<◌, ◌≡◌, refl, ap, ◌∙◌, subst, List, [], ◌∷◌, ◌++◌, Option, none, some, Bytes,
  length, All, arith, if◌then◌else◌, length-append,
}
use level_db.Status.{ok_status}
use level_db.Slice.{equal}
use level_db.Coding.{Coding}
use level_db.Batch.{WriteBatch, Handler, init, clear, set_sequence, iterate}
use level_db.Batch.Header.{Op, IsShort, Holds}
use level_db.Batch.Contents.{apply_op, apply_op-Holds, init-Holds, set_sequence-Holds}
use level_db.Batch.Iterate.{handle, handle_all, iterate-Holds}

-- A call of a client.
pub data Call : Type 0 where
  change : Op → Call
  reset : Call
  number : ℕ → Call

-- The abstract state: what a key is mapped to.
abbrev pub Table : Type 0
Table = Bytes → Option Bytes

abbrev pub empty_table : Table
empty_table key = none

abbrev pub assign : Table → Bytes → Option Bytes → Table
assign t key value k = if equal k key then value else t k

-- A handler that keeps such a table.
abbrev pub table_handler : Handler Table
table_handler = record {
  put = λ key value t. assign t key (some value);
  delete = λ key t. assign t key none;
}

-- The specification of a call.
pub specified : Table → Call → Table
specified t (change (Op.put key value)) = assign t key (some value)
specified t (change (Op.delete key)) = assign t key none
specified t reset = empty_table
specified t (number seq) = t

pub specified_all : Table → List Call → Table
unfolding specified
specified_all t [] = t
specified_all t (c ∷ cs) = specified_all (specified t c) cs

abbrev pub IsLegal : Call → Type 0
IsLegal (change op) = IsShort op
IsLegal reset = Unit
IsLegal (number seq) = seq < 2 ^ 64

handle_all-append :
    (ops : List Op) (op : Op) (t : Table)
    → handle_all table_handler (ops ++ op ∷ []) t
      ≡ handle table_handler op (handle_all table_handler ops t)
unfolding handle_all
handle_all-append [] op t = refl
handle_all-append (o ∷ ops) op t = handle_all-append ops op (handle table_handler o t)

module _ (coding : Coding) where
  pub call : WriteBatch → Call → WriteBatch
  call b (change op) = apply_op coding b op
  call b reset = clear b
  call b (number seq) = set_sequence coding b seq

  pub call_all : WriteBatch → List Call → WriteBatch
  unfolding call
  call_all b [] = b
  call_all b (c ∷ cs) = call_all (call b c) cs

  -- The batch stands for the table, and holds at most `n` records.
  record Refines (b : WriteBatch) (t : Table) (n : ℕ) : Type 0 where
    pub seq : ℕ
    pub ops : List Op
    pub holds : Holds coding b seq ops
    pub means : handle_all table_handler ops empty_table ≡ t
    pub few : length ops ≤ n

  change-Refines :
      (b : WriteBatch) (t : Table) (n : ℕ) (op : Op)
      → Refines b t n
      → IsShort op
      → n + 1 < 2 ^ 32
      → Refines (apply_op coding b op) (handle table_handler op t) (n + 1)
  change-Refines b t n op h legal small = record {
    seq = h.seq;
    ops = h.ops ++ op ∷ [];
    holds = apply_op-Holds coding b h.seq h.ops op h.holds legal (omega (arith, h.few));
    means = handle_all-append h.ops op empty_table ∙ ap (handle table_handler op) h.means;
    few = omega (arith, length-append h.ops (op ∷ []), h.few);
  }

  clear-Refines : (b : WriteBatch) (n : ℕ) → Refines (clear b) empty_table n
  unfolding clear init handle_all
  clear-Refines b n = record {
    seq = 0;
    ops = [];
    holds = init-Holds coding;
    means = refl;
    few = omega arith;
  }

  call-Refines :
      (b : WriteBatch) (t : Table) (n : ℕ) (c : Call)
      → Refines b t n
      → IsLegal c
      → n + 1 < 2 ^ 32
      → Refines (call b c) (specified t c) (n + 1)
  unfolding call specified handle
  call-Refines b t n (change (Op.put key value)) h legal small =
      change-Refines b t n (Op.put key value) h legal small
  call-Refines b t n (change (Op.delete key)) h legal small =
      change-Refines b t n (Op.delete key) h legal small
  call-Refines b t n reset h legal small = clear-Refines b (n + 1)
  call-Refines b t n (number seq) h legal small = record {
    seq = seq;
    ops = h.ops;
    holds = set_sequence-Holds coding b h.seq seq h.ops h.holds legal;
    means = h.means;
    few = omega (arith, h.few);
  }

  call_all-Refines :
      (b : WriteBatch) (t : Table) (n : ℕ) (cs : List Call)
      → Refines b t n
      → All IsLegal cs
      → n + length cs < 2 ^ 32
      → Refines (call_all b cs) (specified_all t cs) (n + length cs)
  unfolding call_all specified_all
  call_all-Refines b t n [] h legal small = subst (Refines b t) (omega arith) h
  call_all-Refines b t n (c ∷ cs) h legal small =
      subst (Refines (call_all (call b c) cs) (specified_all (specified t c) cs)) (omega arith) (
        call_all-Refines (call b c) (specified t c) (n + 1) cs
          (call-Refines b t n c h legal.0 (omega arith)) legal.1 (omega arith))

  -- Whatever calls of `Put`, `Delete`, `Clear` and `SetSequence` a client makes on a new batch,
  -- with keys, values and numbers that fit their widths and fewer than 2^32 calls, iterating over
  -- the batch succeeds and updates an empty table as the calls are specified to do on a table.
  pub iterate-call_all :
      (cs : List Call)
      → All IsLegal cs
      → length cs < 2 ^ 32
      → iterate coding table_handler (call_all init cs) empty_table
        ≡ some (ok_status, specified_all empty_table cs)
  unfolding init
  iterate-call_all cs legal small =
      let h =
        call_all-Refines init empty_table 0 cs (clear-Refines (record { rep = [] }) 0) legal
          (omega arith) in
      iterate-Holds coding table_handler (call_all init cs) h.seq h.ops empty_table h.holds
      ∙ ap (λ t. some (ok_status, t)) h.means
