-- ===== src/Sql/Exec/Display.antt =====
-- `ResultSet::to_string` of sql/executor/mod.rs.
use sqlprimer.Prelude.{
  ℕ, zero, suc, ◌+◌, ◌-◌, ◌≤◌, ◌≡◌, ◌&&◌, List, [], ◌∷◌, ◌++◌, map, length, All, arith, refl, leb,
  ltb, if◌then◌else◌, Outcome, ok, panic, ◌>>=◌,
}
use sqlprimer.Bytes.{Bytes}
use sqlprimer.Sql.Text.{ascii}
use sqlprimer.Sql.Numbers.{pos, F64}
use sqlprimer.Sql.Value.{Row}
use sqlprimer.Sql.Display.{show_int, join_texts, show_value}
use sqlprimer.Sql.Exec.{ResultSet}

-- The characters of a text: its bytes that do not continue one.
unfoldable pub char_count : Bytes → ℕ
char_count [] = 0
char_count (b ∷ bs) = let n = char_count bs in if leb 128 b && ltb b 192 then n else suc n

unfoldable pub repeat : Bytes → ℕ → Bytes
repeat t zero = []
repeat t (suc n) = t ++ repeat t n

-- `{:width$}`: spaces behind a text, up to a number of characters.
unfoldable pub padded : Bytes → ℕ → Bytes
padded t width = t ++ repeat (ascii " ") (width - char_count t)

-- The cells that have a width, in a line.
unfoldable pub line_of : List Bytes → List ℕ → List Bytes
line_of (t ∷ ts) (w ∷ ws) = padded t w ∷ line_of ts ws
line_of _ _ = []

-- `show_float` is the standard library's text of an `f64`.
module _ (show_float : F64 → Bytes) where
  -- The widths with the cells of one row: a cell behind the columns has none.
  unfoldable pub widen : List ℕ → Row → Outcome (List ℕ)
  widen ws [] = ok ws
  widen [] (v ∷ vs) = panic
  widen (w ∷ ws) (v ∷ vs) =
      let len = length (show_value show_float v) in
      widen ws vs >>= λ rest. ok ((if ltb w len then len else w) ∷ rest)

  unfoldable pub widths : List ℕ → List Row → Outcome (List ℕ)
  widths ws [] = ok ws
  widths ws (row ∷ rows) = widen ws row >>= λ wider. widths wider rows

  unfoldable pub table_text : List Bytes → List Row → List ℕ → Bytes
  table_text columns rows ws =
      join_texts (ascii " |") (line_of columns ws)
      ++ 10
        ∷ (join_texts (ascii "+") (map (λ w. repeat (ascii "-") (w + 1)) ws)
            ++ 10
              ∷ (join_texts (10 ∷ []) (
                    map
                      (λ row.
                        join_texts (ascii " |") (line_of (map (show_value show_float) row) ws))
                      rows)
                  ++ 10 ∷ (ascii "(" ++ show_int (pos (length rows)) ++ ascii " rows)")))

  abbrev counted : Bytes → ℕ → Bytes → Outcome Bytes
  counted before n behind = ok (before ++ show_int (pos n) ++ behind)

  unfoldable pub to_string : ResultSet → Outcome Bytes
  to_string (ResultSet.create_table name) = ok (ascii "CREATE TABLE " ++ name)
  to_string (ResultSet.drop_table name) = ok (ascii "DROP TABLE " ++ name)
  to_string (ResultSet.insert count) = counted (ascii "INSERT ") count (ascii " rows")
  to_string (ResultSet.scan columns rows) =
      widths (map length columns) rows >>= λ ws. ok (table_text columns rows ws)
  to_string (ResultSet.update count) = counted (ascii "UPDATE ") count (ascii " rows")
  to_string (ResultSet.delete count) = counted (ascii "DELETE ") count (ascii " rows")
  to_string (ResultSet.begin version) = counted (ascii "TRANSACTION ") version (ascii " BEGIN")
  to_string (ResultSet.commit version) = counted (ascii "TRANSACTION ") version (ascii " COMMIT")
  to_string (ResultSet.rollback version) =
      counted (ascii "TRANSACTION ") version (ascii " ROLLBACK")
  to_string (ResultSet.explain plan) = ok plan

  -- A row that is no longer than the widths are many gives as many widths.
  widen_lem :
      (ws : List ℕ) (row : Row)
      → length row ≤ length ws
      → (wider : List ℕ) × (widen ws row ≡ ok wider) × (length wider ≡ length ws)
  unfolding widen
  widen_lem ws [] h = (ws, refl, refl)
  widen_lem [] (v ∷ vs) h = absurd (omega arith)
  widen_lem (w ∷ ws) (v ∷ vs) h =
      let (rest, e, l) = widen_lem ws vs (omega arith) in
      (
        (if ltb w (length (show_value show_float v)) then length (show_value show_float v) else w)
            ∷ rest,
        rw e refl,
        omega arith,
      )

  widths_lem :
      (ws : List ℕ) (rows : List Row)
      → All (λ row. length row ≤ length ws) rows
      → (wider : List ℕ) × (widths ws rows ≡ ok wider)
  unfolding widths
  widths_lem ws [] h = (ws, refl)
  widths_lem ws (row ∷ rows) h =
      let (wider, e, l) = widen_lem ws row h.0 in
      let (last, q) = widths_lem wider rows (rw l h.1) in (last, rw e q)

  -- The text of a table whose rows are no longer than its header.
  to_string-scan :
      (columns : List Bytes) (rows : List Row)
      → All (λ row. length row ≤ length (map length columns)) rows
      → (text : Bytes) × (to_string (ResultSet.scan columns rows) ≡ ok text)
  unfolding to_string
  to_string-scan columns rows h =
      let (ws, e) = widths_lem (map length columns) rows h in
      (table_text columns rows ws, rw e refl)
