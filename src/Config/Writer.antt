-- ===== src/Config/Writer.antt =====
-- config.go: `ConfigWriter`, which gathers lines and writes them at once.
use lazyjack.Base.{
  Bytes, List, [], ◌∷◌, ◌++◌, Option, none, some, Result, ok, err, panic, Done, M, pure,
}
use lazyjack.World.{Os}

-- `w` is the path of the open file that stands behind the `io.Writer`.
pub record ConfigWriter : Type 0 where
  pub w : Bytes
  pub buf : Bytes
  pub err : Option Bytes

abbrev pub new_config_writer : Bytes → ConfigWriter
new_config_writer w = record { w = w; buf = []; err = none }

-- `Write`, given the formatted text. Printing into a `bytes.Buffer` returns no error.
unfoldable pub write_text : Bytes → ConfigWriter → ConfigWriter
write_text text cw = elim (cw.err) [ some e ↦ cw | none ↦ record cw { buf = cw.buf ++ text } ]

module _ (o : Os) where
  -- `WriteTo` writes nothing where the buffer is empty.
  pub write_to : Bytes → Bytes → M (o.World) Done
  write_to w [] = pure tt
  write_to w (b ∷ buf) = o.write_open w (b ∷ buf)

  -- The writer behind a write: drained, or with the error. What a failed write leaves in the
  -- buffer is not known, and never written: with an error, neither `Write` nor `Flush` touches it.
  pub flushed : ConfigWriter → Result Done × o.World → Result Done × ConfigWriter × o.World
  flushed cw (ok _, v) = (ok tt, record cw { buf = [] }, v)
  flushed cw (err e, v) = (err e, record cw { err = some e }, v)
  flushed cw (panic, v) = (panic, cw, v)

  -- `Flush`, with the writer that it leaves; the error that is kept in the writer is its result.
  unfoldable pub flush : ConfigWriter → o.World → Result Done × ConfigWriter × o.World
  unfolding write_to flushed
  flush cw v = elim (cw.err) [
    | some e ↦ (err e, cw, v)
    | none ↦ flushed cw (write_to cw.w cw.buf v)
  ]

  -- `Flush`, where the writer is not used any more.
  abbrev pub flush_last : ConfigWriter → M (o.World) Done
  flush_last cw v = let (r, _, u) = flush cw v in (r, u)

-- Texts that are written in turn.
pub write_texts : List Bytes → ConfigWriter → ConfigWriter
write_texts [] cw = cw
write_texts (text ∷ texts) cw = write_texts texts (write_text text cw)

pub concat : List Bytes → Bytes
concat [] = []
concat (text ∷ texts) = text ++ concat texts

module _ (o : Os) where
  -- The texts, joined, were written to the file at once; the writer has an empty buffer or the error.
  abbrev pub written_at_once :
      Bytes → Bytes → Result Done × o.World → Result Done × ConfigWriter × o.World
  written_at_once v buf r = flushed o (record { w = v; buf = buf; err = none }) r
