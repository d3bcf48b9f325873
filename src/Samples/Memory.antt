-- ===== src/Samples/Memory.antt =====
-- A database in memory: a put goes in front of what the map holds.
use congraph_log_watcher.Common.{
  ◌≡◌, refl, [], ◌∷◌, none, some, Text, lookup, insert, lookup-insert, Result, ok, arith,
}
use congraph_log_watcher.Checkpoint.Store.{Database, Pending}

abbrev pub put_each : Pending → Pending → Pending
put_each db [] = db
put_each db ((k, c) ∷ m) = insert k c (put_each db m)

pub lookup-put_each :
    (db m : Pending) (name : Text)
    → lookup name (put_each db m) ≡ elim (lookup name m) [ none ↦ lookup name db | some c ↦ some c ]
unfolding lookup
lookup-put_each db [] name = refl
lookup-put_each db ((k, c) ∷ m) name =
    ground (arith, lookup-insert k name c (put_each db m), lookup-put_each db m name)

pub data NoError : Type 0 where
  no_error : NoError

abbrev given : {A : Type 0} → A → Result NoError A
given a = ok a

pub read_back :
    (db new entries : Pending) (name : Text)
    → given (put_each db entries) ≡ given new
    → given (lookup name new)
      ≡ elim (lookup name entries) [ none ↦ ok (lookup name db) | some c ↦ ok (some c) ]
read_back db new entries name h = ground (arith, h, lookup-put_each db entries name)

abbrev pub memory : Database
memory = record {
  Db = Pending;
  DbError = NoError;
  put_all = λ db m. ok (put_each db m);
  get = λ db name. ok (lookup name db);
  close = λ db. none;
  get-put_all = read_back;
}
