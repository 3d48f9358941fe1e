-- ===== src/DataAccess/Represents.antt =====
-- A database that represents a history of the variables, and the calls of `DataAccess` over
-- `SQLiteWrapper` that change it.

use daqs.DataSource.Sqlite as Sqlite
use daqs.Base.{
  ℕ, ◌+◌, ◌^◌, ◌<◌, ◌≡◌, refl, sym, ap, ◌∙◌, Option, none, some, List, [], ◌∷◌, ◌++◌, All-append,
  inl, inr, Option-cases,
}
use daqs.Base.Int.{pos}
use daqs.DataModel.{Variable, VarValue, value_name}
use daqs.DataModel.Floats.{Double}
use daqs.DataSource.Engine.{Engine}
use daqs.DataSource.Tables.{
  Tables, VariableRow, ValueRow, IsBounded, id_of, seen, insert_variable, insert_value,
  insert_written,
}
use daqs.DataSource.Sql.{IsSql}
use daqs.DataSource.Sqlite.{sqlite_source, milliseconds}
use daqs.DataSource.Changed.{add_variable-insert, add_variable_value-insert, err_of, tables_of}
use daqs.DataSource.History.{
  History, has_name, new_entry, history_with, IsValid, view, has_name-view, view-last, view-more,
}
use daqs.DataSource.Valid.{
  IsValid-variable, IsValid-value, filled, insert_value-filled, insert_value-unknown,
  insert_variable-filled, insert_variable-taken,
}
use daqs.DataAccess.{access_err, add_variable, add_variable_value, data_access}
use daqs.DataAccess.Interface.{AccessErr, IDataAccess}
use daqs.DataAccess.Calls.{Call, Result, add, save, status, perform, Allowed}

module _ {W S : Type 0} ⦃d : Double W⦄ (e : Engine W S) (sql : IsSql e) (max_size : ℕ) where
  open sql use {tables, rounded}

  abbrev pub source_access : IDataAccess W S
  source_access = data_access (sqlite_source e) max_size

  -- The database holds valid tables, which are seen as the history, with times that fit.
  pub record Represents (s : S) (h : History W) : Type 0 where
    pub vs : List VariableRow
    pub ws : List (ValueRow W)
    pub next : ℕ
    pub there : tables s ≡ filled vs ws next
    pub valid : IsValid vs ws next
    pub bounded : IsBounded ws
    pub seen_as : h ≡ view vs ws

  -- Time is not before the epoch, and its milliseconds fit 63 bits.
  abbrev pub HasClock : Type 0
  HasClock = (s : S) → (n : ℕ) × (milliseconds e (e.now s) ≡ pos n) × (n < 2 ^ 63)

  -- One call: its result, the world after it, and the history that follows.
  abbrev pub Refines : History W → Call W → S → Type 0
  Refines h call s =
      (r : Result W) × (s' : S) × (h' : History W) × (perform source_access call s ≡ some (r, s'))
      × Allowed rounded h call r h'
      × Represents s' h'

  pub same_tables :
      (s s' : S) (h : History W) → tables s' ≡ tables s → Represents s h → Represents s' h
  same_tables s s' h same rep = record {
    vs = rep.vs;
    ws = rep.ws;
    next = rep.next;
    there = same ∙ rep.there;
    valid = rep.valid;
    bounded = rep.bounded;
    seen_as = rep.seen_as;
  }

  perform-save :
      (v : VarValue W) (n : ℕ) (s : S) (o : Option (Tables W))
      → milliseconds e (e.now s) ≡ pos n
      → insert_written (rounded v.val) n (value_name v) (tables s) ≡ o
      → let s' = (Sqlite.add_variable_value e v s).1 in
        (perform source_access (save v) s ≡ some (status (access_err (err_of o)), s'))
        × (tables s' ≡ tables_of (tables s) o)
  unfolding perform add_variable_value
  perform-save v n s o clock inserted =
      let (done, now) = add_variable_value-insert e sql v n s clock in
      (rw (done ∙ ap err_of inserted) refl, now ∙ ap (tables_of (tables s)) inserted)

  perform-add :
      (var : Variable) (s : S) (o : Option (Tables W))
      → insert_variable var.name var.color (tables s) ≡ o
      → let s' = (Sqlite.add_variable e var s).1 in
        (perform source_access (add var) s ≡ some (status (access_err (err_of o)), s'))
        × (tables s' ≡ tables_of (tables s) o)
  unfolding perform add_variable
  perform-add var s o inserted =
      let (done, now) = add_variable-insert e sql var s in
      (rw (done ∙ ap err_of inserted) refl, now ∙ ap (tables_of (tables s)) inserted)

  -- A call that fails leaves the tables, and so the history.
  failed-Refines :
      (h : History W) (v : VarValue W) (n : ℕ) (s : S)
      → milliseconds e (e.now s) ≡ pos n
      → insert_written (rounded v.val) n (value_name v) (tables s) ≡ none
      → Represents s h
      → Allowed rounded h (save v) (status AccessErr.failed) h
      → Refines h (save v) s
  failed-Refines h v n s time inserted rep allowed =
      let s' = (Sqlite.add_variable_value e v s).1 in
      let (done, same) = perform-save v n s none time inserted in
      (status AccessErr.failed, s', h, done, allowed, same_tables s s' h same rep)

  written-Refines :
      (h : History W) (v : VarValue W) (n : ℕ) (x : W) (s : S)
      → milliseconds e (e.now s) ≡ pos n
      → n < 2 ^ 63
      → rounded v.val ≡ some x
      → Represents s h
      → Refines h (save v) s
  written-Refines h v n x s time small number rep =
      let name = value_name v in
      let s' = (Sqlite.add_variable_value e v s).1 in
      let at : insert_written (rounded v.val) n name (tables s)
          ≡ insert_value x n name (filled rep.vs rep.ws rep.next) =
        ap (λ o. insert_written o n name (tables s)) number
        ∙ ap (insert_value x n name) rep.there in
      let in_view = has_name-view name rep.vs rep.ws in
      elim (Option-cases (id_of name rep.vs)) [
        | inl free ↦
            failed-Refines h v n s time
              (at ∙ insert_value-unknown name n rep.next x rep.vs rep.ws free) rep
              (Allowed.unknown h v (ap (has_name name) rep.seen_as ∙ in_view.0 free))
        | inr (i, known) ↦
            let w : ValueRow W = record { val = x; timestamp = n; variable_id = i } in
            let ws' = rep.ws ++ w ∷ [] in
            let (done, now) =
              perform-save v n s (some (filled rep.vs ws' rep.next)) time
                (at ∙ insert_value-filled name i n rep.next x rep.vs rep.ws known) in
            (
              status AccessErr.ok,
              s',
              history_with name (seen w) h,
              done,
              Allowed.saved h v n x (ap (has_name name) rep.seen_as ∙ in_view.1 i known) number,
              record {
                vs = rep.vs;
                ws = ws';
                next = rep.next;
                there = now;
                valid = IsValid-value name w rep.next rep.vs rep.ws rep.valid known;
                bounded =
                    All-append (λ u. u.timestamp < 2 ^ 63) rep.ws (w ∷ []) rep.bounded (small, tt);
                seen_as =
                    ap (history_with name (seen w)) rep.seen_as
                    ∙ sym (view-more name w rep.ws rep.vs rep.valid.0 known);
              },
            )
      ]

  pub Refines-save :
      (h : History W) (v : VarValue W) (s : S) → HasClock → Represents s h → Refines h (save v) s
  Refines-save h v s clock rep =
      let (n, time, small) = clock s in
      elim (Option-cases (rounded v.val)) [
        | inl no_num ↦
            failed-Refines h v n s time
              (ap (λ o. insert_written o n (value_name v) (tables s)) no_num) rep
              (Allowed.no_number h v no_num)
        | inr (x, number) ↦ written-Refines h v n x s time small number rep
      ]

  pub Refines-add :
      (h : History W) (var : Variable) (s : S) → Represents s h → Refines h (add var) s
  Refines-add h var s rep =
      let s' = (Sqlite.add_variable e var s).1 in
      let at = ap (insert_variable var.name var.color) rep.there in
      let in_view = has_name-view var.name rep.vs rep.ws in
      elim (Option-cases (id_of var.name rep.vs)) [
        | inr (i, taken) ↦
            let (done, same) =
              perform-add var s none
                (at ∙ insert_variable-taken var.name var.color i rep.next rep.vs rep.ws taken) in
            (
              status AccessErr.failed,
              s',
              h,
              done,
              Allowed.refused h var (ap (has_name var.name) rep.seen_as ∙ in_view.1 i taken),
              same_tables s s' h same rep,
            )
        | inl free ↦
            let v : VariableRow = record { id = rep.next; name = var.name; color = var.color } in
            let vs' = rep.vs ++ v ∷ [] in
            let (done, now) =
              perform-add var s (some (filled vs' rep.ws (rep.next + 1)))
                (at ∙ insert_variable-filled var.name var.color rep.next rep.vs rep.ws free) in
            (
              status AccessErr.ok,
              s',
              h ++ new_entry var ∷ [],
              done,
              Allowed.added h var (ap (has_name var.name) rep.seen_as ∙ in_view.0 free),
              record {
                vs = vs';
                ws = rep.ws;
                next = rep.next + 1;
                there = now;
                valid = IsValid-variable var.name var.color rep.next rep.vs rep.ws rep.valid free;
                bounded = rep.bounded;
                seen_as =
                    ap (λ x. x ++ new_entry var ∷ []) rep.seen_as
                    ∙ sym (view-last v rep.vs rep.ws rep.valid.2);
              },
            )
      ]
