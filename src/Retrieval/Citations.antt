-- ===== src/Retrieval/Citations.antt =====
-- isekai_memory/retrieval/citations.py: `attach` makes an item with its excerpt and the digests that bind
-- it. SHA-256 over the canonical JSON is a parameter, and so is the length of what an item prints
-- besides its excerpt: the digests in it have a fixed length.
use isekai_memory.Base.{ℕ, ◌+◌, not, ◌&&◌, ◌||◌, List, [], ◌∷◌, ltb, leb, ◌==◌, if◌then◌else◌}
use isekai_memory.Base.Sorted.{limit_to}
use isekai_memory.Retrieval.Rows.{Memory, Hit}

-- The digests of a memory's content, of a text, and of a binding: the memory, its score, and the two
-- digests before it. `overhead` is the length of an item with an empty excerpt.
pub record Printer : Type 0 where
  pub content_digest : Memory → ℕ
  pub text_digest : List ℕ → ℕ
  pub binding_digest : Memory → ℕ → ℕ → ℕ
  pub overhead : Hit → ℕ

pub record Item : Type 0 where
  pub hit : Hit
  pub excerpt : List ℕ
  pub content_digest : ℕ
  pub excerpt_digest : ℕ
  pub binding_digest : ℕ

-- `attach(row, excerpt_chars=chars)`
unfoldable pub attach : Printer → ℕ → Hit → Item
attach p chars h =
    let excerpt = limit_to chars h.memory.content in
    record {
      hit = h;
      excerpt = excerpt;
      content_digest = p.content_digest h.memory;
      excerpt_digest = p.text_digest excerpt;
      binding_digest =
          p.binding_digest h.memory (p.content_digest h.memory) (p.text_digest excerpt);
    }

-- The characters that JSON prints for a code point, with `ensure_ascii=False`: a quotation mark, a
-- backslash and five control characters have a short escape, the other control characters a long one.
unfoldable pub width : ℕ → ℕ
width c =
    if c == 0x22 || c == 0x5c
    then 2
    else if ltb c 0x20
    then (if leb 8 c && not (c == 11) && leb c 13 then 2 else 6)
    else 1

unfoldable pub printed : List ℕ → ℕ
printed [] = 0
printed (c ∷ t) = width c + printed t

-- `len(canonical(item))`
unfoldable pub size : Printer → Item → ℕ
size p i = p.overhead i.hit + printed i.excerpt
