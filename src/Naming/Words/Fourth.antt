-- ===== src/Naming/Words/Fourth.antt =====
-- Lines 434 to 571 of src/dbextractors/core/_reserved_words.py.
use dbextractors.Base.{String, List, [], ◌∷◌}

unfoldable pub fourth_words : List String
fourth_words =
    "MINUTE" ∷ "MINUTE_MICROSECOND" ∷ "MINUTE_SECOND" ∷ "MINVALUE" ∷ "MLSLABEL" ∷ "MOD" ∷ "MODE"
    ∷ "MODIFIES" ∷ "MODIFY" ∷ "MODULE" ∷ "MONTH" ∷ "MONTHNAME" ∷ "MORE" ∷ "MOVE" ∷ "MULTISET"
    ∷ "MUMPS" ∷ "MYISAM" ∷ "NAME" ∷ "NAMES" ∷ "NATIONAL" ∷ "NATURAL" ∷ "NCHAR" ∷ "NCLOB" ∷ "NESTING"
    ∷ "NEW" ∷ "NEXT" ∷ "NO" ∷ "NO_WRITE_TO_BINLOG" ∷ "NOAUDIT" ∷ "NOCHECK" ∷ "NOCOMPRESS"
    ∷ "NOCREATEDB" ∷ "NOCREATEROLE" ∷ "NOCREATEUSER" ∷ "NOINHERIT" ∷ "NOLOGIN" ∷ "NONCLUSTERED"
    ∷ "NONE" ∷ "NORMALIZE" ∷ "NORMALIZED" ∷ "NOSUPERUSER" ∷ "NOT" ∷ "NOTHING" ∷ "NOTIFY" ∷ "NOTNULL"
    ∷ "NOWAIT" ∷ "NULL" ∷ "NULLABLE" ∷ "NULLIF" ∷ "NULLS" ∷ "NUMBER" ∷ "NUMERIC" ∷ "OBJECT"
    ∷ "OCTET_LENGTH" ∷ "OCTETS" ∷ "OF" ∷ "OFF" ∷ "OFFLINE" ∷ "OFFSET" ∷ "OFFSETS" ∷ "OIDS" ∷ "OLD"
    ∷ "ON" ∷ "ONLINE" ∷ "ONLY" ∷ "OPEN" ∷ "OPENDATASOURCE" ∷ "OPENQUERY" ∷ "OPENROWSET" ∷ "OPENXML"
    ∷ "OPERATION" ∷ "OPERATOR" ∷ "OPTIMIZE" ∷ "OPTION" ∷ "OPTIONALLY" ∷ "OPTIONS" ∷ "OR" ∷ "ORDER"
    ∷ "ORDERING" ∷ "ORDINALITY" ∷ "OTHERS" ∷ "OUT" ∷ "OUTER" ∷ "OUTFILE" ∷ "OUTPUT" ∷ "OVER"
    ∷ "OVERLAPS" ∷ "OVERLAY" ∷ "OVERRIDING" ∷ "OWNER" ∷ "PACK_KEYS" ∷ "PAD" ∷ "PARAMETER"
    ∷ "PARAMETER_MODE" ∷ "PARAMETER_NAME" ∷ "PARAMETER_ORDINAL_POSITION"
    ∷ "PARAMETER_SPECIFIC_CATALOG" ∷ "PARAMETER_SPECIFIC_NAME" ∷ "PARAMETER_SPECIFIC_SCHEMA"
    ∷ "PARAMETERS" ∷ "PARTIAL" ∷ "PARTITION" ∷ "PASCAL" ∷ "PASSWORD" ∷ "PATH" ∷ "PCTFREE"
    ∷ "PERCENT" ∷ "PERCENT_RANK" ∷ "PERCENTILE_CONT" ∷ "PERCENTILE_DISC" ∷ "PLACING" ∷ "PLAN"
    ∷ "PLI" ∷ "POSITION" ∷ "POSTFIX" ∷ "POWER" ∷ "PRECEDING" ∷ "PRECISION" ∷ "PREFIX" ∷ "PREORDER"
    ∷ "PREPARE" ∷ "PREPARED" ∷ "PRESERVE" ∷ "PRIMARY" ∷ "PRINT" ∷ "PRIOR" ∷ "PRIVILEGES" ∷ "PROC"
    ∷ "PROCEDURAL" ∷ "PROCEDURE" ∷ "PROCESS" ∷ "PROCESSLIST" ∷ "PUBLIC" ∷ "PURGE" ∷ "QUOTE"
    ∷ "RAID0" ∷ "RAISERROR" ∷ "RANGE" ∷ []
