-- ===== src/Network/Report/Loop.antt =====
-- The loop of `ntwk_getActivePdpCntxtCnt` over the lines of an answer to `AT+QIACT?`.
use cr_lte_modem.Base.{
  ℕ, zero, suc, ◌+◌, ◌≤◌, ◌<◌, ◌≡◌, refl, ap, ◌∙◌, Option, none, some, List, [], ◌∷◌, ◌++◌,
  append_assoc, arith, length, get_elem?, set, drop, length-append, length-drop, u8,
}
use cr_lte_modem.CString.{Bytes, codes, starts_with, strstr, decimal}
use cr_lte_modem.Device.{PdpCntxt}
use cr_lte_modem.Network.{
  qiact, qiact_sz, token_buf_sz, text_at, offset, Entry, read_entry, read_entries,
}
use cr_lte_modem.CString.Pieces.{
  Avoids, Avoids-append, Avoids-decimal, strstr-Avoids, strstr-Avoids-none,
}
use cr_lte_modem.Network.Report.{
  line, report, IsPlain, AllPlain, overlay, noted, text_at-shift, read_entry-line,
}

-- The contexts as they are read: the buffer of the tokens keeps the end of a longer address.
abbrev pub stale : Bytes → List PdpCntxt → List PdpCntxt
stale buf [] = []
stale buf (c ∷ cs) = noted c buf ∷ stale (overlay c.ip_address buf) cs

-- a line behind its landmark
abbrev body : PdpCntxt → Bytes
body c =
    decimal c.context_id
    ++ (codes ",1," ++ (decimal c.ip_type ++ (codes ",\"" ++ (c.ip_address ++ codes "\"\r\n"))))

line-body : (c : PdpCntxt) (more : Bytes) → line c more ≡ qiact ++ (body c ++ more)
line-body c more = simp append_assoc

Avoids-body : (c : PdpCntxt) → IsPlain c → Avoids b'+' (body c)
Avoids-body c p =
    Avoids-append b'+' (decimal c.context_id) _ (Avoids-decimal b'+' c.context_id refl) (
      Avoids-append b'+' (codes ",1,") _ (omega arith) (
        Avoids-append b'+' (decimal c.ip_type) _ (Avoids-decimal b'+' c.ip_type refl) (
          Avoids-append b'+' (codes ",\"") _ (omega arith)
            (Avoids-append b'+' c.ip_address (codes "\"\r\n") p.plus (omega arith)))))

-- where the first line of a report begins
abbrev pub first_at : List PdpCntxt → ℕ → Option ℕ
first_at [] k = none
first_at (c ∷ cs) k = some k

pub strstr-report :
    (s rest : Bytes) (cs : List PdpCntxt)
    → Avoids b'+' s
    → Avoids b'+' rest
    → strstr (s ++ report cs rest) qiact ≡ first_at cs (length s)
unfolding strstr starts_with
strstr-report s rest [] h k = strstr-Avoids-none b'+' _ (s ++ rest) (Avoids-append b'+' s rest h k)
strstr-report s rest (c ∷ cs) h k =
    strstr-Avoids b'+' _ s (report (c ∷ cs) rest) 0 h refl ∙ ap some (omega arith)

read_entries_step :
    (fuel : ℕ) (mem buf : Bytes) (next indx : ℕ) (table : List PdpCntxt) (old : PdpCntxt)
    (e : Entry) (o : Option ℕ)
    → get_elem? table indx ≡ some old
    → read_entry mem next buf old ≡ some e
    → strstr (text_at mem (next + qiact_sz)) qiact ≡ o
    → read_entries (suc fuel) mem (some next) buf indx table
      ≡ read_entries fuel mem
          (offset (next + qiact_sz) o)
          e.token_buf
          (u8 (indx + 1))
          (set table indx e.context)
unfolding read_entries
read_entries_step fuel mem buf next indx table old e o g r f =
    rw (← f) (rw (g, read_entries) (rw (r, read_entries) refl))

offset-first_at : (cs : List PdpCntxt) (k n : ℕ) → offset k (first_at cs n) ≡ first_at cs (k + n)
offset-first_at [] k n = refl
offset-first_at (c ∷ cs) k n = refl

get_elem?-append {ℓ} :
    {A : Type ℓ} (xs ys : List A) (y : A) → get_elem? (xs ++ y ∷ ys) (length xs) ≡ some y
get_elem?-append [] ys y = refl
get_elem?-append (x ∷ xs) ys y = get_elem?-append xs ys y

get_elem?-past {ℓ} : {A : Type ℓ} (xs : List A) → get_elem? (xs ++ []) (length xs) ≡ none
get_elem?-past [] = refl
get_elem?-past (x ∷ xs) = get_elem?-past xs

set-append {ℓ} :
    {A : Type ℓ} (xs ys : List A) (y z : A)
    → set (xs ++ y ∷ ys) (length xs) z ≡ (xs ++ z ∷ []) ++ ys
set-append [] ys y z = refl
set-append (x ∷ xs) ys y z = ap (λ l. x ∷ l) (set-append xs ys y z)

pub length-overlay :
    (ip buf : Bytes) → length ip ≤ length buf → length (overlay ip buf) ≡ length buf
length-overlay ip buf h =
    length-append ip (drop (length ip) buf) ∙ omega (arith, length-drop (length ip) buf)

-- the text behind the landmark of a line, and behind the line
text_at-body :
    (c : PdpCntxt) (cs : List PdpCntxt) (mem rest : Bytes) (k : ℕ)
    → text_at mem k ≡ report (c ∷ cs) rest
    → text_at mem (k + qiact_sz) ≡ body c ++ report cs rest
text_at-body c cs mem rest k h = text_at-shift mem qiact _ k (h ∙ line-body c (report cs rest))

text_at-rest :
    (c : PdpCntxt) (cs : List PdpCntxt) (mem rest : Bytes) (k : ℕ)
    → text_at mem k ≡ report (c ∷ cs) rest
    → text_at mem (k + qiact_sz + length (body c)) ≡ report cs rest
text_at-rest c cs mem rest k h =
    text_at-shift mem (body c) _ (k + qiact_sz) (text_at-body c cs mem rest k h)

-- One round of the loop, at a line of the report.
read_entries-line :
    (cs done todo : List PdpCntxt) (c old : PdpCntxt) (fuel : ℕ) (mem buf rest : Bytes) (k : ℕ)
    → text_at mem k ≡ report (c ∷ cs) rest
    → IsPlain c
    → Avoids b'+' rest
    → length buf ≡ token_buf_sz
    → length done < 255
    → read_entries (suc fuel) mem (some k) buf (length done) (done ++ old ∷ todo)
      ≡ read_entries fuel mem
          (first_at cs (k + qiact_sz + length (body c)))
          (overlay c.ip_address buf)
          (length (done ++ noted c buf ∷ []))
          ((done ++ noted c buf ∷ []) ++ todo)
read_entries-line cs done todo c old fuel mem buf rest k h p a l n =
    read_entries_step fuel mem buf k (length done) (done ++ old ∷ todo) old e
      (first_at cs (length (body c))) (get_elem?-append done todo old)
      (read_entry-line mem buf (report cs rest) k c old h p l)
      (ap (λ t. strstr t qiact) (text_at-body c cs mem rest k h)
        ∙ strstr-report (body c) rest cs (Avoids-body c p) a)
    ∙ (λ i.
        read_entries fuel mem (offset-first_at cs (k + qiact_sz) (length (body c)) i)
          (overlay c.ip_address buf) (count i) (set-append done todo old (noted c buf) i))
  where
    e : Entry
    e = record { context = noted c buf; token_buf = overlay c.ip_address buf }

    count : u8 (length done + 1) ≡ length (done ++ noted c buf ∷ [])
    count = omega (arith, length-append done (noted c buf ∷ []))

-- The loop reads the lines one after the other, where the table has room for them.
pub read_entries-report :
    (cs done todo : List PdpCntxt) (fuel : ℕ) (mem buf rest : Bytes) (k : ℕ)
    → text_at mem k ≡ report cs rest
    → AllPlain cs
    → Avoids b'+' rest
    → length buf ≡ token_buf_sz
    → length cs ≤ fuel
    → length cs ≤ length todo
    → length done + length todo < 256
    → read_entries fuel mem (first_at cs k) buf (length done) (done ++ todo)
      ≡ some (record {
        table = done ++ (stale buf cs ++ drop (length cs) todo);
        found = length done + length cs;
      })
unfolding read_entries
read_entries-report [] done todo zero mem buf rest k h p a l f t n =
    ap (λ n. some (record { table = done ++ todo; found = n })) (omega arith)
read_entries-report [] done todo (suc fuel) mem buf rest k h p a l f t n =
    ap (λ n. some (record { table = done ++ todo; found = n })) (omega arith)
read_entries-report (c ∷ cs) done todo zero mem buf rest k h p a l f t n = absurd (omega arith)
read_entries-report (c ∷ cs) done [] (suc fuel) mem buf rest k h p a l f t n = absurd (omega arith)
read_entries-report (c ∷ cs) done (old ∷ todo) (suc fuel) mem buf rest k h p a l f t n =
    read_entries-line cs done todo c old fuel mem buf rest k h p.0 a l (omega arith)
    ∙ read_entries-report cs (done ++ noted c buf ∷ []) todo fuel mem (overlay c.ip_address buf)
        rest (k + qiact_sz + length (body c)) (text_at-rest c cs mem rest k h) p.1 a
        (length-overlay c.ip_address buf (omega (arith, p.0.short, l)) ∙ l) (omega arith)
        (omega arith) (omega (arith, length-append done (noted c buf ∷ [])))
    ∙ (λ i. some (record { table = tables i; found = counts i }))
  where
    tables :
        (done ++ noted c buf ∷ []) ++ (stale (overlay c.ip_address buf) cs ++ drop (length cs) todo)
        ≡ done ++ noted c buf ∷ (stale (overlay c.ip_address buf) cs ++ drop (length cs) todo)
    tables = append_assoc done (noted c buf ∷ []) _

    counts : length (done ++ noted c buf ∷ []) + length cs ≡ length done + suc (length cs)
    counts = omega (arith, length-append done (noted c buf ∷ []))

-- With more lines than room it writes past the table.
pub read_entries-overflow :
    (cs done todo : List PdpCntxt) (fuel : ℕ) (mem buf rest : Bytes) (k : ℕ)
    → text_at mem k ≡ report cs rest
    → AllPlain cs
    → Avoids b'+' rest
    → length buf ≡ token_buf_sz
    → length todo < length cs
    → length done + length todo < 256
    → read_entries fuel mem (first_at cs k) buf (length done) (done ++ todo) ≡ none
unfolding read_entries
read_entries-overflow [] done todo fuel mem buf rest k h p a l t n = absurd (omega arith)
read_entries-overflow (c ∷ cs) done todo zero mem buf rest k h p a l t n = refl
read_entries-overflow (c ∷ cs) done [] (suc fuel) mem buf rest k h p a l t n =
    rw (get_elem?-past done, read_entries) refl
read_entries-overflow (c ∷ cs) done (old ∷ todo) (suc fuel) mem buf rest k h p a l t n =
    read_entries-line cs done todo c old fuel mem buf rest k h p.0 a l (omega arith)
    ∙ read_entries-overflow cs (done ++ noted c buf ∷ []) todo fuel mem (overlay c.ip_address buf)
        rest (k + qiact_sz + length (body c)) (text_at-rest c cs mem rest k h) p.1 a
        (length-overlay c.ip_address buf (omega (arith, p.0.short, l)) ∙ l) (omega arith)
        (omega (arith, length-append done (noted c buf ∷ [])))
