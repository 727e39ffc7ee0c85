-- ===== src/Store/Table.antt =====
-- pkg/store: what every store shares, `Load` and `save`. A JSON file is one of four things: absent,
-- unreadable, not JSON, or the rows that were marshalled. Whether a write succeeds, and what a
-- failed write leaves in the file, is the environment's choice and an argument of each operation.
use tvproxy.Base.{List, Result, ok, err, ◌≡◌, refl}

pub data File {ℓ} (A : Type ℓ) : Type ℓ where
  absent unreadable malformed : File A
  holds : List A → File A

pub data Write {ℓ} (A : Type ℓ) : Type ℓ where
  written : Write A
  failed : File A → Write A

pub data Error : Type 0 where
  not_found read_failed decode_failed write_failed duplicate_name : Error

pub record Table {ℓ} (A : Type ℓ) : Type ℓ where
  pub rows : List A
  pub file : File A

abbrev pub Outcome {ℓ} : Type ℓ → Type ℓ
Outcome A = Table A × Result Error (Unit {0})

module _ {ℓ} {A : Type ℓ} where
  -- `Load`: an absent file is no error and leaves the rows.
  abbrev pub load_from : File A → Table A → Outcome A
  load_from absent t = (t, ok tt)
  load_from unreadable t = (t, err read_failed)
  load_from malformed t = (t, err decode_failed)
  load_from (holds rows) t = (record t { rows = rows }, ok tt)

  abbrev pub load : Table A → Outcome A
  load t = load_from t.file t

  -- `save`: the rows are changed already when the write fails.
  abbrev pub save : Write A → Table A → Outcome A
  save written t = (record t { file = holds t.rows }, ok tt)
  save (failed left) t = (record t { file = left }, err write_failed)

  pub save-rows : (w : Write A) (t : Table A) → (save w t).0.rows ≡ t.rows
  save-rows written t = refl
  save-rows (failed left) t = refl
