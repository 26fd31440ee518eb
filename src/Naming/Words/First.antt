-- ===== src/Naming/Words/First.antt =====
-- Lines 20 to 157 of src/dbextractors/core/_reserved_words.py.
use dbextractors.Base.{String, List, [], ◌∷◌}

unfoldable pub first_words : List String
first_words =
    "A" ∷ "ABORT" ∷ "ABS" ∷ "ABSOLUTE" ∷ "ACCESS" ∷ "ACTION" ∷ "ADA" ∷ "ADD" ∷ "ADMIN" ∷ "AFTER"
    ∷ "AGGREGATE" ∷ "ALIAS" ∷ "ALL" ∷ "ALLOCATE" ∷ "ALSO" ∷ "ALTER" ∷ "ALWAYS" ∷ "ANALYSE"
    ∷ "ANALYZE" ∷ "AND" ∷ "ANY" ∷ "ARE" ∷ "ARRAY" ∷ "AS" ∷ "ASC" ∷ "ASENSITIVE" ∷ "ASSERTION"
    ∷ "ASSIGNMENT" ∷ "ASYMMETRIC" ∷ "AT" ∷ "ATOMIC" ∷ "ATTRIBUTE" ∷ "ATTRIBUTES" ∷ "AUDIT"
    ∷ "AUTHORIZATION" ∷ "AUTO_INCREMENT" ∷ "AVG" ∷ "AVG_ROW_LENGTH" ∷ "BACKUP" ∷ "BACKWARD"
    ∷ "BEFORE" ∷ "BEGIN" ∷ "BERNOULLI" ∷ "BETWEEN" ∷ "BIGINT" ∷ "BINARY" ∷ "BIT" ∷ "BIT_LENGTH"
    ∷ "BITVAR" ∷ "BLOB" ∷ "BOOL" ∷ "BOOLEAN" ∷ "BOTH" ∷ "BREADTH" ∷ "BREAK" ∷ "BROWSE" ∷ "BULK"
    ∷ "BY" ∷ "C" ∷ "CACHE" ∷ "CALL" ∷ "CALLED" ∷ "CARDINALITY" ∷ "CASCADE" ∷ "CASCADED" ∷ "CASE"
    ∷ "CAST" ∷ "CATALOG" ∷ "CATALOG_NAME" ∷ "CEIL" ∷ "CEILING" ∷ "CHAIN" ∷ "CHANGE" ∷ "CHAR"
    ∷ "CHAR_LENGTH" ∷ "CHARACTER" ∷ "CHARACTER_LENGTH" ∷ "CHARACTER_SET_CATALOG"
    ∷ "CHARACTER_SET_NAME" ∷ "CHARACTER_SET_SCHEMA" ∷ "CHARACTERISTICS" ∷ "CHARACTERS" ∷ "CHECK"
    ∷ "CHECKED" ∷ "CHECKPOINT" ∷ "CHECKSUM" ∷ "CLASS" ∷ "CLASS_ORIGIN" ∷ "CLOB" ∷ "CLOSE"
    ∷ "CLUSTER" ∷ "CLUSTERED" ∷ "COALESCE" ∷ "COBOL" ∷ "COLLATE" ∷ "COLLATION" ∷ "COLLATION_CATALOG"
    ∷ "COLLATION_NAME" ∷ "COLLATION_SCHEMA" ∷ "COLLECT" ∷ "COLUMN" ∷ "COLUMN_NAME" ∷ "COLUMNS"
    ∷ "COMMAND_FUNCTION" ∷ "COMMAND_FUNCTION_CODE" ∷ "COMMENT" ∷ "COMMIT" ∷ "COMMITTED"
    ∷ "COMPLETION" ∷ "COMPRESS" ∷ "COMPUTE" ∷ "CONDITION" ∷ "CONDITION_NUMBER" ∷ "CONNECT"
    ∷ "CONNECTION" ∷ "CONNECTION_NAME" ∷ "CONSTRAINT" ∷ "CONSTRAINT_CATALOG" ∷ "CONSTRAINT_NAME"
    ∷ "CONSTRAINT_SCHEMA" ∷ "CONSTRAINTS" ∷ "CONSTRUCTOR" ∷ "CONTAINS" ∷ "CONTAINSTABLE"
    ∷ "CONTINUE" ∷ "CONVERSION" ∷ "CONVERT" ∷ "COPY" ∷ "CORR" ∷ "CORRESPONDING" ∷ "COUNT"
    ∷ "COVAR_POP" ∷ "COVAR_SAMP" ∷ "CREATE" ∷ "CREATEDB" ∷ "CREATEROLE" ∷ "CREATEUSER" ∷ "CROSS"
    ∷ []
